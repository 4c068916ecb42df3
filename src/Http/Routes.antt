-- ===== src/Http/Routes.antt =====
-- src/include/http_server.hh, `RegisterHttpRequestHandler`: what it does to the routes of the table
-- that `HandleRequestMessage` (src/http_server.cc) looks requests up in.
use sylar_framework.Prelude.{
  ◌≡◌, refl, sym, ap, ◌∙◌, inl, inr, true, false, List, [], ◌∷◌, Option, none, some, arith,
  if◌then◌else◌, Bool-cases, ◌&&◌,
}
use sylar_framework.Prelude.Text.{Text, equal, equal_iff}
use sylar_framework.Http.Message.{HttpMethod}
use sylar_framework.Http.Server.{
  Table, same_method, method_number, find_method, find_path, insert_method, register_handler,
}

-- The handler that a table gives for a path and a method.
abbrev pub in_methods : {H : Type 0} → HttpMethod → Option (List (HttpMethod × H)) → Option H
in_methods m none = none
in_methods m (some ms) = find_method m ms

abbrev pub route : {H : Type 0} → Text → HttpMethod → Table H → Option H
route p m hs = in_methods m (find_path p hs)

abbrev pub or_else : {H : Type 0} → Option H → Option H → Option H
or_else none h = h
or_else (some g) h = some g

or_else-none : {H : Type 0} (h : Option H) → or_else h none ≡ h
or_else-none none = refl
or_else-none (some g) = refl

same_method_congr :
    (i m k : HttpMethod) → same_method i m ≡ true → same_method i k ≡ same_method m k
unfolding same_method
same_method_congr i m k h = let e : method_number i ≡ method_number m = ground arith in rw e refl

find_first :
    {H : Type 0} (k m : HttpMethod) (h : H)
    → find_method k ((m, h) ∷ []) ≡ (if same_method m k then some h else none)
unfolding find_method
find_first k m h = refl

find_method-insert_method :
    {H : Type 0} (k m : HttpMethod) (h : H) (ms : List (HttpMethod × H))
    → find_method k (insert_method m h ms)
      ≡ or_else (find_method k ms) (if same_method m k then some h else none)
unfolding find_method insert_method
find_method-insert_method k m h [] = refl
find_method-insert_method k m h ((i, g) ∷ ms) = elim (Bool-cases (same_method i m)) [
  | inl here ↦ elim (Bool-cases (same_method i k)) [
    | inl same ↦ rw (here, same) refl
    | inr other ↦
        let e : same_method m k ≡ false = sym (same_method_congr i m k here) ∙ other in
        rw (here, other, e) (sym (or_else-none (find_method k ms)))
  ]
  | inr past ↦ elim (Bool-cases (same_method i k)) [
    | inl same ↦ rw (past, same) refl
    | inr other ↦ rw (past, other) (find_method-insert_method k m h ms)
  ]
]

-- Registering a handler adds one route, for its own path and method, unless that route is there
-- already: the first registration stays, and no other route changes.
pub route-register_handler :
    {H : Type 0} (p q : Text) (k m : HttpMethod) (h : H) (hs : Table H)
    → route q k (register_handler p m h hs)
      ≡ or_else (route q k hs) (if equal p q && same_method m k then some h else none)
unfolding find_path register_handler
route-register_handler p q k m h [] = elim (Bool-cases (equal p q)) [
  | inl same ↦ rw same (find_first k m h)
  | inr other ↦ rw other refl
]
route-register_handler p q k m h ((i, ms) ∷ hs) = elim (Bool-cases (equal i p)) [
  | inl here ↦
      let e : equal p q ≡ equal i q = ap (λ s. equal s q) (sym ((equal_iff i p).0 here)) in
      elim (Bool-cases (equal i q)) [
        | inl same ↦ rw (here, e, same) (find_method-insert_method k m h ms)
        | inr other ↦ rw (here, e, other) (sym (or_else-none (route q k hs)))
      ]
  | inr past ↦ elim (Bool-cases (equal i q)) [
    | inl same ↦
        let e : equal p q ≡ false =
          ap (equal p) (sym ((equal_iff i q).0 same))
          ∙ ground (arith, past, equal_iff p i, equal_iff i p) in
        rw (past, same, e) (sym (or_else-none (find_method k ms)))
    | inr other ↦ rw (past, other) (route-register_handler p q k m h hs)
  ]
]
