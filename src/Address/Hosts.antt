-- ===== src/Address/Hosts.antt =====
-- The hosts and services that `Lookup` reads out of the texts of addresses.
use sylar_framework.Prelude.{
  ℕ, ◌<◌, ◌≡◌, inl, inr, ◌≢◌, refl, true, false, ◌==◌, ==_iff, ◌&&◌, ◌||◌, leb, List, [], ◌∷◌, ◌++◌,
  append_assoc, All, All-map, some, arith, Option-cases,
}
use sylar_framework.Prelude.Text.{Text, decimal}
use sylar_framework.Address.IpAddress.{Family, inet, SockAddr, ipv4, insert, get_port}
use sylar_framework.Address.Lookup.{memchr, bracketed, by_colon, split_host}

-- The byte is not in the text.
abbrev pub Free : ℕ → Text → Type 0
Free c s = All (λ x. x ≢ c) s

abbrev pub Dotted : ℕ → Type 0
Dotted x = ((leb b'0' x && leb x b'9') || x == b'.') ≡ true

ne→false : (x c : ℕ) → x ≢ c → (x == c) ≡ false
ne→false x c h = ground arith

memchr-Free : (c : ℕ) (a b : Text) → Free c a → memchr c (a ++ c ∷ b) ≡ some (a, b)
unfolding memchr
memchr-Free c [] b h = let e : (c == c) ≡ true = (==_iff c c).1 refl in rw e refl
memchr-Free c (x ∷ a) b h = rw (memchr-Free c a b h.1, ne→false x c h.0) refl

Dotted-Free : (x c : ℕ) → Dotted x → 57 < c → x ≢ c
Dotted-Free x c h e g = ground (arith, h, e, g)

not_bracketed : (x : ℕ) (s : Text) → x ≢ b'[' → bracketed (x ∷ s) ≡ ([], [])
unfolding bracketed
not_bracketed x s h = elim (Option-cases (memchr b']' s)) [
  | inl e ↦ rw (bracketed, e) refl
  | inr (p, e) ↦ rw (bracketed, e, ne→false x b'[' h) refl
]

by_colon_found :
    (host service : Text) (p : Text × Text)
    → memchr b':' host ≡ some p
    → by_colon host ([], service) ≡ p
unfolding by_colon
by_colon_found host service p h = rw (by_colon, h) refl

-- The service behind the first colon, when no bracket is read.
split_at_colon :
    (host node service : Text) (x : ℕ)
    → bracketed host ≡ ([], [])
    → memchr b':' host ≡ some (x ∷ node, service)
    → split_host host ≡ (x ∷ node, service)
unfolding split_host
split_at_colon host node service x h e = rw (h, by_colon_found host [] (x ∷ node, service) e) refl

-- A name without colon or bracket, with a service.
pub split_host_name :
    (x : ℕ) (name service : Text)
    → x ≢ b'['
    → Free b':' (x ∷ name)
    → split_host (x ∷ name ++ b':' ∷ service) ≡ (x ∷ name, service)
split_host_name x name service h f =
    split_at_colon (x ∷ name ++ b':' ∷ service) name service x
      (not_bracketed x (name ++ b':' ∷ service) h) (memchr-Free b':' (x ∷ name) service f)

bracketed_service :
    (inner service : Text)
    → Free b']' inner
    → bracketed (b'[' ∷ inner ++ b']' ∷ b':' ∷ service) ≡ (b'[' ∷ inner ++ b']' ∷ [], service)
unfolding bracketed
bracketed_service inner service f = rw (bracketed, memchr-Free b']' inner (b':' ∷ service) f) refl

bracketed_alone :
    (inner : Text) → Free b']' inner → bracketed (b'[' ∷ inner ++ b']' ∷ []) ≡ ([], [])
unfolding bracketed
bracketed_alone inner f = rw (bracketed, memchr-Free b']' inner [] f) refl

split_keeps_brackets :
    (inner service : Text)
    → Free b']' inner
    → split_host (b'[' ∷ inner ++ b']' ∷ b':' ∷ service) ≡ (b'[' ∷ inner ++ b']' ∷ [], service)
unfolding split_host by_colon
split_keeps_brackets inner service f = rw (bracketed_service inner service f) refl

cut_in_two :
    (before after : Text)
    → Free b':' before
    → memchr b':' (b'[' ∷ (before ++ b':' ∷ after) ++ b']' ∷ [])
      ≡ some (b'[' ∷ before, after ++ b']' ∷ [])
cut_in_two before after g =
    rw append_assoc (memchr-Free b':' (b'[' ∷ before) (after ++ b']' ∷ []) (omega arith, g))

-- Of an address in brackets `Lookup` takes, with a service, the address and its brackets for the host;
-- without one, what stands before the first colon of the address itself.
pub split_host_brackets :
    (before after service : Text)
    → Free b']' (before ++ b':' ∷ after)
    → Free b':' before
    → (split_host (b'[' ∷ (before ++ b':' ∷ after) ++ b']' ∷ b':' ∷ service)
        ≡ (b'[' ∷ (before ++ b':' ∷ after) ++ b']' ∷ [], service))
      × (split_host (b'[' ∷ (before ++ b':' ∷ after) ++ b']' ∷ [])
          ≡ (b'[' ∷ before, after ++ b']' ∷ []))
split_host_brackets before after service f g = (
  split_keeps_brackets (before ++ b':' ∷ after) service f,
  split_at_colon (b'[' ∷ (before ++ b':' ∷ after) ++ b']' ∷ []) before (after ++ b']' ∷ []) b'['
      (bracketed_alone (before ++ b':' ∷ after) f) (cut_in_two before after g),
)

module _ (htons ntohs : ℕ → ℕ) (inet_ntop : Family → List ℕ → Text) where
  -- `inet_ntop` writes an IPv4 address with digits and dots: its text, as `Insert` prints it with the
  -- port, is read by `Lookup` as that address and that port.
  pub split_host-insert :
      (a : SockAddr) (x : ℕ) (r : Text)
      → inet_ntop inet a.host ≡ x ∷ r
      → All Dotted (x ∷ r)
      → split_host (insert htons ntohs inet_ntop (ipv4 a))
        ≡ (inet_ntop inet a.host, decimal (get_port htons ntohs (ipv4 a)))
  unfolding insert
  split_host-insert a x r e d = rw e (
      split_host_name x r (decimal (get_port htons ntohs (ipv4 a)))
        (Dotted-Free x b'[' d.0 (omega arith))
        (All-map (λ y h. Dotted-Free y b':' h (omega arith)) (x ∷ r) d))
