-- ===== src/Statusline/Counts.antt =====
-- A count of tokens takes four cells at most.
use c_squad.Statusline.Usage.{tokens}
use c_squad.Statusline.Width.{width, cell_width}
use c_squad.Statusline.Fit.{width-append}
use c_squad.Base.{
  ℕ, zero, suc, ◌+◌, ◌*◌, ◌/◌, ◌%◌, ◌≤◌, ◌<◌, ◌≡◌, refl, inl, inr, true, Bool-cases, [], ◌∷◌, ◌++◌,
  arith, ltb, Text, lit, itoa, digits_from,
}

-- `fmt.Sprintf` of a float: the decimal that is nearest to `n / unit`, with no digit or one after the
-- point, a tie to either side. `m` is the number without its point.
pub record IsNearest (unit scale n m : ℕ) : Type 0 where
  pub not_above : 2 * m * unit ≤ 2 * n * scale + unit
  pub not_below : 2 * n * scale ≤ 2 * m * unit + unit

pub record IsFormat (fixed : ℕ → ℕ → ℕ → Text) : Type 0 where
  pub thousands : (n : ℕ) → (m : ℕ) × IsNearest 1000 1 n m × (fixed 0 n 1000 ≡ itoa m)
  pub millions : (n : ℕ) → (m : ℕ) × IsNearest 1000000 1 n m × (fixed 0 n 1000000 ≡ itoa m)
  pub tenths_k :
      (n : ℕ)
      → (m : ℕ) × IsNearest 1000 10 n m × (fixed 1 n 1000 ≡ itoa (m / 10) ++ b'.' ∷ itoa (m % 10))
  pub tenths_m :
      (n : ℕ)
      → (m : ℕ) × IsNearest 1000000 10 n m
        × (fixed 1 n 1000000 ≡ itoa (m / 10) ++ b'.' ∷ itoa (m % 10))

digit-width : (d : ℕ) (s : Text) → d < 10 → width ((b'0' + d) ∷ s) ≡ 1 + width s
unfolding width cell_width
digit-width d s h = ground (arith, h)

-- 10, 100, 1000 …
abbrev tens : ℕ → ℕ
tens zero = 10
tens (suc k) = 10 * tens k

-- A number below `tens k` has k + 1 digits at most.
digits_from-width :
    (fuel n k : ℕ) (acc : Text)
    → n < fuel
    → n < tens k
    → width (digits_from fuel n acc) ≤ suc k + width acc
unfolding digits_from
digits_from-width zero n k acc h b = absurd (omega (arith, h))
digits_from-width (suc fuel) n zero acc h b =
    let q : ltb n 10 ≡ true = ground (arith, b) in rw q (omega (arith, digit-width n acc b))
digits_from-width (suc fuel) n (suc k) acc h b = elim (Bool-cases (ltb n 10)) [
  | inl q ↦ rw q (omega (arith, digit-width n acc (ground (arith, q))))
  | inr q ↦ rw q (
      omega (
        arith,
        digits_from-width fuel (n / 10) k ((b'0' + n % 10) ∷ acc) (ground (arith, q, h))
            (omega (arith, b)),
        digit-width (n % 10) acc (omega arith),
      ))
]

itoa-width : (n k : ℕ) → n < tens k → width (itoa n) ≤ suc k
unfolding itoa width
itoa-width n k h = omega (arith, digits_from-width (suc n) n k [] (omega arith) h)

-- A whole number of at most three digits and its unit.
whole_fits :
    (m : ℕ) (s : Text) (u : ℕ) → s ≡ itoa m → m < 1000 → width (s ++ u ∷ []) ≤ 3 + width (u ∷ [])
whole_fits m s u e h = rw e (omega (arith, width-append (itoa m) (u ∷ []), itoa-width m 2 h))

-- A number below 10 with one decimal, and its unit.
point-width : (s : Text) → width (b'.' ∷ s) ≡ 1 + width s
unfolding width cell_width
point-width s = refl

unit-widths : (width (b'k' ∷ []) ≡ 1) × (width (b'M' ∷ []) ≡ 1)
unfolding width cell_width
unit-widths = (refl, refl)

tenth_fits :
    (m : ℕ) (s : Text) (u : ℕ)
    → s ≡ itoa (m / 10) ++ b'.' ∷ itoa (m % 10)
    → m < 100
    → width (s ++ u ∷ []) ≤ 3 + width (u ∷ [])
tenth_fits m s u e h = rw e (
    omega (
      arith,
      width-append (itoa (m / 10) ++ b'.' ∷ itoa (m % 10)) (u ∷ []),
      width-append (itoa (m / 10)) (b'.' ∷ itoa (m % 10)),
      itoa-width (m / 10) 0 (omega (arith, h)),
      itoa-width (m % 10) 0 (omega arith),
      point-width (itoa (m % 10)),
    ))

-- A count below a thousand million takes four cells at most, where numbers are formatted to the nearest
-- decimal.
pub tokens-width :
    (fixed : ℕ → ℕ → ℕ → Text) (n : ℕ) → IsFormat fixed → n < 999500000 → width (tokens fixed n) ≤ 4
unfolding tokens lit
tokens-width fixed n f h = elim (Bool-cases (ltb n 1000)) [
  | inl a ↦ rw a (omega (arith, itoa-width n 2 (ground (arith, a))))
  | inr a ↦ elim (Bool-cases (ltb n 9950)) [
    | inl b ↦
        let (m, r, e) = f.tenths_k n in
        rw (a, b)
          (omega (arith, unit-widths, tenth_fits m _ b'k' e (ground (arith, r.not_above, b))))
    | inr b ↦ elim (Bool-cases (ltb n 999500)) [
      | inl c ↦
          let (m, r, e) = f.thousands n in
          rw (a, b, c)
            (omega (arith, unit-widths, whole_fits m _ b'k' e (ground (arith, r.not_above, c))))
      | inr c ↦ elim (Bool-cases (ltb n 9950000)) [
        | inl d ↦
            let (m, r, e) = f.tenths_m n in
            rw (a, b, c, d)
              (omega (arith, unit-widths, tenth_fits m _ b'M' e (ground (arith, r.not_above, d))))
        | inr d ↦
            let (m, r, e) = f.millions n in
            rw (a, b, c, d)
              (omega (arith, unit-widths, whole_fits m _ b'M' e (omega (arith, r.not_above, h))))
      ]
    ]
  ]
]
