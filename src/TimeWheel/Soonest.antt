-- ===== src/TimeWheel/Soonest.antt =====
-- What `GetNextTimeout` returns, over the heads of all slots.
use native.Mathlib.Nat.{mod-eq_of_lt, mod-eq-sub-mod}
use sylar_framework.Prelude.{
  ℕ, zero, suc, ◌+◌, ◌-◌, ◌%◌, ◌≤◌, ◌<◌, ◌≡◌, ◌≢◌, refl, sym, ap, ◌∙◌, ◌⊎◌, inl, inr, List, [], ◌∷◌,
  length, Bool-cases, ltb, leb, ◌==◌, arith,
}
use sylar_framework.TimeWheel.Wheel.{Item, Wheel, list_at}
use sylar_framework.TimeWheel.Next.{trigger, closer, closest, int64_max, get_next_timeout}

-- Every slot is visited: the round that comes to slot `j`.
round_of : (s cur j : ℕ) → cur < s → j < s → (i : ℕ) × (i < s) × ((cur + i) % s ≡ j)
round_of s cur j c h = elim (Bool-cases (leb cur j)) [
  | inl e ↦
      let low : cur ≤ j = ground arith in
      let same : cur + (j - cur) ≡ j = omega arith in
      (j - cur, omega arith, ap (λ n. n % s) same ∙ mod-eq_of_lt h)
  | inr e ↦
      let low : j < cur = ground arith in
      let high : s ≤ cur + (j + s - cur) = omega arith in
      let same : cur + (j + s - cur) - s ≡ j = omega arith in
      (j + s - cur, omega arith, mod-eq-sub-mod high ∙ ap (λ n. n % s) same ∙ mod-eq_of_lt h)
]

module _ (now : ℕ) (w : Wheel) where
  abbrev visited : ℕ → List Item
  visited i = list_at ((w.current + i) % w.slots) w.lists

  closer_le : (l : List Item) (dis : ℕ) → closer now l dis ≤ dis
  unfolding closer
  closer_le [] dis = omega arith
  closer_le (item ∷ rest) dis = omega arith

  closest_le : (n i dis : ℕ) → closest now w n i dis ≤ dis
  unfolding closest
  closest_le zero i dis = omega arith
  closest_le (suc n) i dis =
      omega (arith, closest_le n (suc i) (closer now (visited i) dis), closer_le (visited i) dis)

  closer_head :
      (l : List Item) (item : Item) (rest : List Item) (dis : ℕ)
      → l ≡ item ∷ rest
      → closer now l dis ≤ trigger now item
  unfolding closer
  closer_head l item rest dis e = rw e (omega arith)

  closest-visited :
      (n i k dis : ℕ) (item : Item) (rest : List Item)
      → k < n
      → visited (i + k) ≡ item ∷ rest
      → closest now w n i dis ≤ trigger now item
  unfolding closest
  closest-visited zero i k dis item rest h e = absurd (omega arith)
  closest-visited (suc n) i zero dis item rest h e =
      let g : i + 0 ≡ i = omega arith in
      let first : closer now (visited i) dis ≤ trigger now item =
        closer_head (visited i) item rest dis (ap visited (sym g) ∙ e) in
      omega (arith, closest_le n (suc i) (closer now (visited i) dis), first)
  closest-visited (suc n) i (suc k) dis item rest h e =
      let g : suc i + k ≡ i + suc k = omega arith in
      closest-visited n (suc i) k (closer now (visited i) dis) item rest (omega arith)
        (ap visited g ∙ e)

  -- It is what it was, or comes from a head.
  abbrev pub FromHead : ℕ → Type 0
  FromHead t =
      (j : ℕ) × (item : Item) × (rest : List Item) × (list_at j w.lists ≡ item ∷ rest)
      × (t ≡ trigger now item)

  closer-FromHead :
      (j dis : ℕ) (l : List Item)
      → list_at j w.lists ≡ l
      → (closer now l dis ≡ dis) ⊎ FromHead (closer now l dis)
  unfolding closer
  closer-FromHead j dis [] e = inl refl
  closer-FromHead j dis (item ∷ rest) e = elim (Bool-cases (leb dis (trigger now item))) [
    | inl h ↦ inl (ground arith)
    | inr h ↦ inr (j, item, rest, e, ground arith)
  ]

  pub closest-FromHead :
      (n i dis : ℕ) → (closest now w n i dis ≡ dis) ⊎ FromHead (closest now w n i dis)
  unfolding closest
  closest-FromHead zero i dis = inl refl
  closest-FromHead (suc n) i dis = elim (closest-FromHead n (suc i) (closer now (visited i) dis)) [
    | inr f ↦ inr f
    | inl e ↦ elim (closer-FromHead ((w.current + i) % w.slots) dis (visited i) refl) [
      | inl g ↦ inl (e ∙ g)
      | inr (j, item, rest, h, g) ↦ inr (j, item, rest, h, e ∙ g)
    ]
  ]

  abbrev pub scanned : ℕ
  scanned = closest now w (length w.lists) 0 int64_max

  -- The two early answers are 0.
  returned :
      (get_next_timeout now w ≡ 0) ⊎ ((get_next_timeout now w ≡ scanned) × (scanned ≢ int64_max))
  unfolding get_next_timeout
  returned = elim (Bool-cases (ltb now w.last_trigger)) [
    | inl e ↦ inl (rw e refl)
    | inr e ↦ elim (Bool-cases (scanned == int64_max)) [
      | inl f ↦ inl (rw (e, f) refl)
      | inr f ↦ inr (rw (e, f) refl, λ g. ground (arith, f, g))
    ]
  ]

  returned_le : get_next_timeout now w ≤ scanned
  returned_le = elim returned [ inl e ↦ omega (arith, e) | inr (e, n) ↦ omega (arith, e) ]

  pub scanned_le :
      (j : ℕ) (item : Item) (rest : List Item)
      → length w.lists ≡ w.slots
      → w.current < w.slots
      → j < w.slots
      → list_at j w.lists ≡ item ∷ rest
      → scanned ≤ trigger now item
  scanned_le j item rest s c h e =
      let r = round_of w.slots w.current j c h in
      let g : (w.current + (0 + r.0)) % w.slots ≡ j =
        ap (λ n. (w.current + n) % w.slots) (omega arith) ∙ r.2 in
      closest-visited (length w.lists) 0 r.0 int64_max item rest (omega (arith, r.1, s))
        (ap (λ n. list_at n w.lists) g ∙ e)

  -- On a wheel with as many lists as slots, the time that `GetNextTimeout` returns is not above the time
  -- left to the first item of any slot, taken modulo 2 ^ 64, and it is 0 or the time left to one of
  -- them.
  pub get_next_timeout_bounds :
      length w.lists ≡ w.slots
      → w.current < w.slots
      → ((j : ℕ) (item : Item) (rest : List Item)
          → j < w.slots
          → list_at j w.lists ≡ item ∷ rest
          → get_next_timeout now w ≤ trigger now item)
        × ((get_next_timeout now w ≡ 0) ⊎ FromHead (get_next_timeout now w))
  unfolding get_next_timeout
  get_next_timeout_bounds s c = (
    λ j item rest h e. omega (arith, returned_le, scanned_le j item rest s c h e),
    elim returned [
      | inl e ↦ inl e
      | inr (e, n) ↦ elim (closest-FromHead (length w.lists) 0 int64_max) [
        | inl f ↦ absurd (n f)
        | inr (j, item, rest, f, g) ↦ inr (j, item, rest, f, e ∙ g)
      ]
    ],
  )
