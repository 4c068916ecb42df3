-- ===== src/Http/Exchange.antt =====
-- src/http_server.cc: one request and its answer over one connection, from the bytes that `recv` gives
-- to those that `send` takes: `HandleEpollEvent` with `HandleRequestData` inside.
use sylar_framework.Prelude.{
  ℕ, suc, ◌+◌, ◌-◌, ◌≡◌, refl, sym, ap, ◌∙◌, inl, inr, Bool, true, false, List, [], ◌∷◌, ◌++◌, map,
  append_assoc, length, take, drop, take_all, drop_all, take-append-drop, drop-drop, some,
  Bool-cases, if◌then◌else◌, ltb, arith,
}
use sylar_framework.Prelude.Text.{Text}
use sylar_framework.Http.Message.{Error}
use sylar_framework.Http.Server.{Handlers, Reply, max_buffer_size, reply_of, handle_request_data}
use sylar_framework.Http.Connection.{
  Io, bytes, nothing, Pending, Phase, reading, writing, closed, Connection, on_readable,
  on_writable, handle_epoll_event,
}
use sylar_framework.Http.Leak.{sum}

-- The object for an answer.
abbrev pub pending_of : Reply → Pending
pending_of r = record { cursor = 0; length = length r.bytes; keep_alive = r.keep_alive }

-- What one call of `send` takes from the buffer.
unfoldable pub chunk : Text → Phase → Io → Text
chunk buf (writing p) (bytes n) = take n (drop p.cursor buf)
chunk buf _ _ = []

-- The connection, and what the client has received.
pub record Exchange : Type 0 where
  pub received : Text
  pub connection : Connection

module _ (what : Error → Text) (hs : Handlers) (incoming : Text) where
  -- The answer to the first bytes of what came in.
  abbrev pub answer : ℕ → Reply
  answer n = reply_of what hs (take n incoming)

  unfoldable pub deliver : Exchange → Io → Exchange
  unfolding chunk
  deliver e io = record {
    received = e.received ++ chunk (answer (length incoming)).bytes e.connection.phase io;
    connection = handle_epoll_event (λ n. pending_of (answer n)) e.connection io;
  }

  unfoldable pub deliver_all : Exchange → List Io → Exchange
  unfolding deliver
  deliver_all e [] = e
  deliver_all e (io ∷ ios) = deliver_all (deliver e io) ios

  abbrev buffer : Text
  buffer = (answer (length incoming)).bytes

  abbrev ended : Bool → ℕ → Connection
  ended keep a =
      if keep
      then record { phase = reading; allocated = suc a }
      else record { phase = closed; allocated = a }

  abbrev sending : Text → ℕ → ℕ → Bool → ℕ → Exchange
  sending got k l keep a = record {
    received = got;
    connection = record {
      phase = writing (record { cursor = k; length = l; keep_alive = keep });
      allocated = suc a;
    };
  }

  sends_rest :
      (k a : ℕ) (keep : Bool) (got : Text) (ns : List ℕ)
      → k + sum ns ≡ length buffer
      → deliver_all (sending got k (sum ns) keep a) (map bytes ns ++ nothing ∷ [])
        ≡ record { received = got ++ drop k buffer; connection = ended keep a }
  unfolding deliver_all deliver chunk handle_epoll_event on_writable
  sends_rest k a true got [] h =
      let e : suc a - 1 ≡ a = omega arith in
      rw (deliver, e, drop_all k buffer (omega (arith, h))) refl
  sends_rest k a false got [] h =
      let e : suc a - 1 ≡ a = omega arith in
      rw (deliver, e, drop_all k buffer (omega (arith, h))) refl
  sends_rest k a keep got (n ∷ ns) h =
      let e : n + sum ns - n ≡ sum ns = omega arith in
      let next : got ++ drop k buffer ≡ (got ++ take n (drop k buffer)) ++ drop (k + n) buffer =
        ap (λ t. got ++ t)
          (sym (take-append-drop n (drop k buffer))
            ∙ ap (λ t. take n (drop k buffer) ++ t) (drop-drop n k buffer))
        ∙ sym (append_assoc got (take n (drop k buffer)) (drop (k + n) buffer)) in
      let part = got ++ take n (drop k buffer) in
      ap (λ l. deliver_all (sending part (k + n) l keep a) (map bytes ns ++ nothing ∷ [])) e
      ∙ sends_rest (k + n) a keep part ns (omega (arith, h))
      ∙ ap (λ t. record { received = t; connection = ended keep a }) (sym next)

  answer_whole :
      (r : Reply) → handle_request_data what hs incoming ≡ some r → answer (length incoming) ≡ r
  unfolding handle_request_data
  answer_whole r h =
      ap (reply_of what hs) (take_all (length incoming) incoming (omega arith))
      ∙ (elim (Bool-cases (ltb max_buffer_size (length (reply_of what hs incoming).bytes))) [
        | inl e ↦ cc (h, e)
        | inr e ↦ cc (h, e)
      ])

  -- A request that arrives whole, and whose answer fits into the buffer: however `send` cuts the answer
  -- into parts, the client receives the printed response and nothing else, and when a last call finds
  -- nothing left, the connection is back to reading if the request asked to keep it alive, and closed
  -- if not.
  pub deliver_all-handle_request_data :
      (r : Reply) (a : ℕ) (ns : List ℕ)
      → handle_request_data what hs incoming ≡ some r
      → sum ns ≡ length r.bytes
      → deliver_all
          (record { received = []; connection = record { phase = reading; allocated = a } })
          (bytes (length incoming) ∷ map bytes ns ++ nothing ∷ [])
        ≡ record {
          received = r.bytes;
          connection =
              if r.keep_alive
              then record { phase = reading; allocated = suc a }
              else record { phase = closed; allocated = a };
        }
  unfolding deliver_all deliver chunk handle_epoll_event on_readable
  deliver_all-handle_request_data r a ns h s =
      let keep = (answer (length incoming)).keep_alive in
      let whole = answer_whole r h in
      let size : sum ns ≡ length buffer = s ∙ ap (λ q. length q.bytes) (sym whole) in
      ap (λ l. deliver_all (sending [] 0 l keep a) (map bytes ns ++ nothing ∷ [])) (sym size)
      ∙ sends_rest 0 a keep [] ns (omega (arith, size))
      ∙ ap (λ q. record { received = q.bytes; connection = ended q.keep_alive a }) whole
