-- ===== src/Http/Listener.antt =====
-- src/http_server.cc: `ListenClient`, which hands the accepted connections to the workers in turn.
use sylar_framework.Prelude.{
  ℕ, suc, ◌%◌, ◌≡◌, refl, Bool, true, false, List, [], ◌∷◌, ◌++◌, append_assoc, append-nil, Option,
  none, some, arith,
}

-- `kThreadPoolSize`.
abbrev pub pool_size : ℕ
pool_size = 5

-- `worker_idx`, `active`, and the registrations so far: the worker and the descriptor, the
-- oldest first.
pub record Listening : Type 0 where
  pub worker : ℕ
  pub active : Bool
  pub registered : List (ℕ × ℕ)

-- One round, with what `accept4` returns: a descriptor, or a failure.
unfoldable pub accept_client : Listening → Option ℕ → Listening
accept_client l none = record l { active = false }
accept_client l (some fd) = record {
  worker = suc l.worker % pool_size;
  active = true;
  registered = l.registered ++ (l.worker, fd) ∷ [];
}

unfoldable pub listen_client : Listening → List (Option ℕ) → Listening
listen_client l [] = l
listen_client l (r ∷ rs) = listen_client (accept_client l r) rs

-- The descriptors that were accepted, each with its place in the turn.
abbrev pub in_turn : ℕ → List (Option ℕ) → List (ℕ × ℕ)
in_turn k [] = []
in_turn k (none ∷ rs) = in_turn k rs
in_turn k (some fd ∷ rs) = (k % pool_size, fd) ∷ in_turn (suc k) rs

-- The connections that are accepted from some point on are registered with the workers in turn, each
-- once and in the order of their arrival, whatever failures of `accept4` come between.
pub listen_client-in_turn :
    (k : ℕ) (l : Listening) (rs : List (Option ℕ))
    → l.worker ≡ k % pool_size
    → (listen_client l rs).registered ≡ l.registered ++ in_turn k rs
unfolding listen_client accept_client
listen_client-in_turn k l [] h = rw append-nil refl
listen_client-in_turn k l (none ∷ rs) h = listen_client-in_turn k (record l { active = false }) rs h
listen_client-in_turn k l (some fd ∷ rs) h =
    rw
      (
        listen_client-in_turn (suc k) (accept_client l (some fd)) rs (omega (arith, h)),
        h,
        append_assoc,
      )
      refl
