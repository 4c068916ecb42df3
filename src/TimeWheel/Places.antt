-- ===== src/TimeWheel/Places.antt =====
-- src/timewheel.cc: the places of a wheel, counted from the current one.
use native.Mathlib.Nat.{
  mod-eq_of_lt, mod-lt, div-eq_of_lt, add-mod-mod, div-add-mod, mul-add-div, mul-add-mod_self_left,
  mul-mod_right, mul-div_cancel_left, mod-eq-sub-mod, mul-suc,
}
use sylar_framework.Prelude.{
  ℕ, suc, ◌+◌, ◌-◌, ◌*◌, ◌/◌, ◌%◌, ◌≤◌, ◌<◌, ◌≡◌, sym, ap, ◌∙◌, ◌⊎◌, inl, inr, false, arith, ◌==◌,
  Bool-cases, ltb,
}

elsewhere : (s cur r : ℕ) → cur < s → suc r < s → ((cur + suc r) % s == cur) ≡ false
elsewhere s cur r inside small = elim (Bool-cases (ltb (cur + suc r) s)) [
  | inl e ↦
      let low : cur + suc r < s = ground arith in
      let same : (cur + suc r) % s ≡ cur + suc r = mod-eq_of_lt low in rw same (ground arith)
  | inr e ↦
      let high : s ≤ cur + suc r = ground arith in
      let low : cur + suc r - s < s = omega arith in
      let same : (cur + suc r) % s ≡ cur + suc r - s = mod-eq-sub-mod high ∙ mod-eq_of_lt low in
      rw same (ground arith)
]

-- The place one tick earlier: where it is the current slot a whole turn more is to go.
pub by_turn :
    (s cur d : ℕ)
    → cur < s
    → (((cur + suc d) % s ≡ cur) × (suc d / s ≡ suc (d / s)))
      ⊎ ((((cur + suc d) % s == cur) ≡ false) × (suc d / s ≡ d / s))
by_turn s cur d inside =
    let pos : 0 < s = omega arith in
    let r = d % s in
    let q = d / s in
    let small : r < s = mod-lt d pos in
    let whole : s * q + r ≡ d = div-add-mod d s in
    elim (Bool-cases (suc r == s)) [
      | inl e ↦
          let full : suc r ≡ s = ground arith in
          let next : suc d ≡ s * suc q = omega (arith, whole, full, mul-suc s q) in
          let rest : suc d % s ≡ 0 = ap (λ n. n % s) next ∙ mul-mod_right s (suc q) in
          let shift : cur + 0 ≡ cur = omega arith in
          inl (
            sym (add-mod-mod cur (suc d) s)
                ∙ ap (λ n. (cur + n) % s) rest
                ∙ ap (λ n. n % s) shift
                ∙ mod-eq_of_lt inside,
            ap (λ n. n / s) next ∙ mul-div_cancel_left (suc q) pos,
          )
      | inr e ↦
          let next : suc d ≡ s * q + suc r = omega (arith, whole) in
          let more : suc r < s = ground arith in
          let rest : suc d % s ≡ suc r =
            ap (λ n. n % s) next ∙ mul-add-mod_self_left s q (suc r) ∙ mod-eq_of_lt more in
          let shift : q + 0 ≡ q = omega arith in
          let turns : suc d / s ≡ q =
            ap (λ n. n / s) next
            ∙ mul-add-div pos q (suc r)
            ∙ (ap (λ n. q + n) (div-eq_of_lt more) ∙ shift) in
          let place : (cur + suc d) % s ≡ (cur + suc r) % s =
            sym (add-mod-mod cur (suc d) s) ∙ ap (λ n. (cur + n) % s) rest in
          inr (rw place (elsewhere s cur r inside more), turns)
    ]
