-- ===== src/Config/Paths.antt =====
-- src/config.cc: which entries `YamlToList` gives for a tree.
use mathlib.Core.Path.{subst}
use sylar_framework.Prelude.{
  ℕ, ◌≡◌, ◌≢◌, refl, sym, ◌∙◌, append_assoc, append-nil, ◌⊎◌, inl, inr, true, List, [], ◌∷◌, ◌++◌,
  arith, All, Bool-cases,
}
use sylar_framework.Prelude.Text.{Text, is_alpha}
use sylar_framework.Config.Yaml.{
  Yaml, null, scalar, sequence, mapping, Fields, end, field, is_key_char, all_of, is_key, join,
  Entry, listed, children, list_fields, yaml_to_list,
}

-- A field of a mapping, and a node that some keys lead to.
pub data Has (k : Text) (v : Yaml) : Fields → Type 0 where
  first : {fs : Fields} → Has k v (field k v fs)
  later : {l : Text} {w : Yaml} {fs : Fields} → Has k v fs → Has k v (field l w fs)

pub data Leads (n : Yaml) : List Text → Yaml → Type 0 where
  here : Leads n [] n
  below :
      {k : Text} {p : List Text} {v : Yaml} {fs : Fields}
      → Has k v fs
      → Leads n p v
      → Leads n (k ∷ p) (mapping fs)

pub data In {A : Type 0} (x : A) : List A → Type 0 where
  head : {xs : List A} → In x (x ∷ xs)
  tail : {y : A} {xs : List A} → In x xs → In x (y ∷ xs)

-- The key that stands for a path below a key.
abbrev pub path_key : Text → List Text → Text
path_key prefix [] = prefix
path_key prefix (k ∷ p) = path_key (join prefix k) p

abbrev pub IsKey : Text → Type 0
IsKey s = is_key s ≡ true

In-left : {A : Type 0} {x : A} {xs : List A} (ys : List A) → In x xs → In x (xs ++ ys)
In-left ys head = head
In-left ys (tail i) = tail (In-left ys i)

In-right : {A : Type 0} {x : A} (xs : List A) {ys : List A} → In x ys → In x (xs ++ ys)
In-right [] i = i
In-right (y ∷ xs) i = tail (In-right xs i)

In-split : {A : Type 0} {x : A} (xs ys : List A) → In x (xs ++ ys) → In x xs ⊎ In x ys
In-split [] ys i = inr i
In-split (y ∷ xs) ys head = inl head
In-split (y ∷ xs) ys (tail i) = elim (In-split xs ys i) [ inl j ↦ inl (tail j) | inr j ↦ inr j ]

all_of-append : (s u : Text) → IsKey s → IsKey u → IsKey (s ++ u)
unfolding all_of
all_of-append [] u h g = g
all_of-append (c ∷ s) u h g = ground (arith, all_of-append s u)

join-IsKey : (s k : Text) → IsKey s → IsKey k → IsKey (join s k)
unfolding join all_of is_key_char is_alpha
join-IsKey [] k h g = g
join-IsKey (c ∷ s) k h g = all_of-append (c ∷ s) (b'.' ∷ k) h g

listed_below :
    {k : Text} {v : Yaml} (prefix : Text) (e : Entry) {fs : Fields}
    → Has k v fs
    → In e (yaml_to_list (join prefix k) v)
    → In e (list_fields prefix fs)
unfolding yaml_to_list list_fields
listed_below prefix e first i = In-left _ i
listed_below prefix e (later h) i = In-right _ (listed_below prefix e h i)

In-children :
    (prefix : Text) (n : Yaml) (e : Entry)
    → IsKey prefix
    → In e (children prefix n)
    → In e (yaml_to_list prefix n)
unfolding yaml_to_list listed
In-children prefix n e valid i = rw valid (tail i)

Leads-listed :
    {n root : Yaml} {p : List Text} (prefix : Text)
    → IsKey prefix
    → All IsKey p
    → Leads n p root
    → In (path_key prefix p, n) (yaml_to_list prefix root)
unfolding yaml_to_list listed children
Leads-listed prefix valid keys here = rw valid head
Leads-listed prefix valid keys (below {k = k} {fs = fs} h l) =
    In-children prefix (mapping fs) _ valid (
      listed_below prefix _ h
        (Leads-listed (join prefix k) (join-IsKey prefix k valid keys.0) keys.1 l))

-- Where an entry comes from.
abbrev pub Comes : Text → Yaml → Entry → Type 0
Comes prefix root e = (p : List Text) × Leads e.1 p root × (e.0 ≡ path_key prefix p) × IsKey e.0

abbrev ComesBelow : Text → Fields → Entry → Type 0
ComesBelow prefix fs e =
    (k : Text) × (v : Yaml) × (p : List Text) × Has k v fs
    × Leads e.1 p v
    × (e.0 ≡ path_key (join prefix k) p)
    × IsKey e.0

Comes-later :
    (prefix l : Text) (w : Yaml) (fs : Fields) (e : Entry)
    → ComesBelow prefix fs e
    → ComesBelow prefix (field l w fs) e
Comes-later prefix l w fs e (k, v, p, h, below_, eq, valid) = (k, v, p, later h, below_, eq, valid)

Comes-first :
    (prefix k : Text) (v : Yaml) (fs : Fields) (e : Entry)
    → Comes (join prefix k) v e
    → ComesBelow prefix (field k v fs) e
Comes-first prefix k v fs e (p, l, eq, valid) = (k, v, p, first, l, eq, valid)

Comes-head :
    (prefix : Text) (n : Yaml) (e : Entry)
    → IsKey prefix
    → In e ((prefix, n) ∷ [])
    → Comes prefix n e
Comes-head prefix n e valid head = ([], here, refl, valid)
Comes-head prefix n e valid (tail i) = elim i [ ]

Comes-mapping :
    (prefix : Text) (fs : Fields) (e : Entry) → ComesBelow prefix fs e → Comes prefix (mapping fs) e
Comes-mapping prefix fs e (k, v, p, h, l, eq, valid) = (k ∷ p, below h l, eq, valid)

Comes-listed :
    (prefix : Text) (n : Yaml) (e : Entry)
    → (In e (children prefix n) → Comes prefix n e)
    → In e (listed prefix n (children prefix n))
    → Comes prefix n e
unfolding listed
Comes-listed prefix n e inner i = elim (Bool-cases (is_key prefix)) [
  | inl valid ↦ elim (In-split ((prefix, n) ∷ []) (children prefix n) (rw valid at i)) [
    | inl j ↦ Comes-head prefix n e valid j
    | inr j ↦ inner j
  ]
  | inr bad ↦ elim (rw bad at i) [ ]
]

mutual
  unfolding children list_fields

  Comes-children :
      (prefix : Text) (n : Yaml) (e : Entry) → In e (children prefix n) → Comes prefix n e
  Comes-children prefix null e i = elim i [ ]
  Comes-children prefix (scalar s) e i = elim i [ ]
  Comes-children prefix (sequence ns) e i = elim i [ ]
  Comes-children prefix (mapping fs) e i = Comes-mapping prefix fs e (Comes-fields prefix fs e i)

  Comes-fields :
      (prefix : Text) (fs : Fields) (e : Entry)
      → In e (list_fields prefix fs)
      → ComesBelow prefix fs e
  Comes-fields prefix end e i = elim i [ ]
  Comes-fields prefix (field k v fs) e i =
      elim (In-split (listed (join prefix k) v (children (join prefix k) v)) (list_fields prefix fs)
        i) [
          | inl j ↦
              Comes-first prefix k v fs e
                (Comes-listed (join prefix k) v e (Comes-children (join prefix k) v e) j)
          | inr j ↦ Comes-later prefix k v fs e (Comes-fields prefix fs e j)
        ]

-- Keys with a dot before each of them, and with dots between them.
abbrev pub dots : List Text → Text
dots [] = []
dots (k ∷ p) = b'.' ∷ k ++ dots p

abbrev pub dotted : List Text → Text
dotted [] = []
dotted (k ∷ p) = k ++ dots p

path_key-append : (c : ℕ) (s : Text) (p : List Text) → path_key (c ∷ s) p ≡ (c ∷ s) ++ dots p
unfolding join
path_key-append c s [] = sym (append-nil (c ∷ s))
path_key-append c s (k ∷ p) =
    path_key-append c (s ++ b'.' ∷ k) p ∙ append_assoc (c ∷ s) (b'.' ∷ k) (dots p)

path_key-dotted : (p : List Text) → All (λ k. k ≢ []) p → path_key [] p ≡ dotted p
unfolding join
path_key-dotted [] h = refl
path_key-dotted ([] ∷ p) h = absurd (h.0 refl)
path_key-dotted ((c ∷ k) ∷ p) h = path_key-append c k p

-- `YamlToList` gives every node that keys lead to from the root, where none of the keys is empty and
-- all have only the characters that are allowed, under these keys with dots between them.
pub In-yaml_to_list :
    (root : Yaml) (p : List Text) (n : Yaml)
    → All IsKey p
    → All (λ k. k ≢ []) p
    → Leads n p root
    → In (dotted p, n) (yaml_to_list [] root)
unfolding all_of
In-yaml_to_list root p n keys full l =
    subst (λ t. In (t, n) (yaml_to_list [] root)) (path_key-dotted p full)
      (Leads-listed [] refl keys l)

-- Each entry that `YamlToList` gives is a node that some keys lead to from the root, under the key
-- that `join` makes of these one after the other, and its key has only the characters that are allowed.
pub Comes-yaml_to_list : (root : Yaml) (e : Entry) → In e (yaml_to_list [] root) → Comes [] root e
unfolding yaml_to_list
Comes-yaml_to_list root e i = Comes-listed [] root e (Comes-children [] root e) i
