-- ===== src/Http/Leak.antt =====
-- The life of one connection: every answer is sent whole, and leaves one object behind.
use sylar_framework.Prelude.{ℕ, suc, ◌+◌, ◌-◌, ◌≤◌, ◌≡◌, refl, true, List, [], ◌∷◌, map, arith}
use sylar_framework.Http.Connection.{
  Io, bytes, nothing, Pending, reading, writing, handle_epoll_event, handle_all,
}

abbrev pub sum : List ℕ → ℕ
sum [] = 0
sum (n ∷ ns) = n + sum ns

-- The sends of one answer, and the last one, which has nothing left to send.
abbrev pub sends : List ℕ → List Io
sends [] = nothing ∷ []
sends (n ∷ ns) = bytes n ∷ sends ns

drained :
    (reply : ℕ → Pending) (p : Pending) (a : ℕ) (ns : List ℕ)
    → p.keep_alive ≡ true
    → handle_all reply (record { phase = writing p; allocated = suc a }) (sends ns)
      ≡ record { phase = reading; allocated = suc a }
unfolding handle_all handle_epoll_event
drained reply p a [] k = let e : suc a - 1 ≡ a = omega arith in rw (k, e) refl
drained reply p a (n ∷ ns) k =
    drained reply (record p { cursor = p.cursor + n; length = p.length - n }) a ns k

-- A request that is answered on a connection that stays open, however the answer is cut by `send`,
-- brings the connection back to reading with one more object allocated than before.
pub handle_all_leaks :
    (reply : ℕ → Pending) (a n : ℕ) (ns : List ℕ)
    → (reply n).keep_alive ≡ true
    → handle_all reply (record { phase = reading; allocated = suc a }) (bytes n ∷ sends ns)
      ≡ record { phase = reading; allocated = suc (suc a) }
unfolding handle_all handle_epoll_event
handle_all_leaks reply a n ns k = drained reply (reply n) (suc a) ns k

-- While an answer is being sent the cursor and what is left always add up to its size, as long as
-- `send` takes no more than is left.
pub handle_all-Pending :
    (reply : ℕ → Pending) (p : Pending) (a : ℕ) (ns : List ℕ)
    → sum ns ≤ p.length
    → handle_all reply (record { phase = writing p; allocated = a }) (map bytes ns) ≡ record {
      phase = writing (record p { cursor = p.cursor + sum ns; length = p.length - sum ns });
      allocated = a;
    }
unfolding handle_all handle_epoll_event
handle_all-Pending reply p a [] h =
    let e : p.cursor + 0 ≡ p.cursor = omega arith in
    let f : p.length - 0 ≡ p.length = omega arith in rw (e, f) refl
handle_all-Pending reply p a (n ∷ ns) h =
    let e : p.cursor + n + sum ns ≡ p.cursor + (n + sum ns) = omega arith in
    let f : p.length - n - sum ns ≡ p.length - (n + sum ns) = omega arith in
    rw (← e, ← f)
      (handle_all-Pending reply (record p { cursor = p.cursor + n; length = p.length - n }) a ns
        (omega arith))
