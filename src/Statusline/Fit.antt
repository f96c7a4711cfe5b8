-- ===== src/Statusline/Fit.antt =====
-- Cut and padded texts fit their cells.
use c_squad.Statusline.Width.{cell_width, width, clean, fitting, ellipsis, truncate, pad, pad_left}
use c_squad.Base.{
  ℕ, zero, suc, ◌+◌, ◌-◌, ◌≤◌, ◌<◌, ◌≡◌, refl, ap, ◌∙◌, ◌⊎◌, inl, inr, true, false, [], ◌∷◌, ◌++◌,
  arith, replicate, take, length, All, Bool-cases, leb, ltb, max, Text,
}

pub width-append : (s t : Text) → width (s ++ t) ≡ width s + width t
unfolding width
width-append [] t = omega arith
width-append (r ∷ s) t = omega (arith, width-append s t)

pub width-spaces : (n : ℕ) → width (replicate n 32) ≡ n
unfolding width cell_width
width-spaces zero = refl
width-spaces (suc n) = omega (arith, width-spaces n)

-- What is kept stays within one cell less than the limit, for the ellipsis.
width-fitting : (w max : ℕ) (s : Text) → w ≤ max - 1 → w + width (fitting w max s) ≤ max - 1
unfolding width fitting
width-fitting w max [] h = omega arith
width-fitting w max (r ∷ s) h = ground (arith, width-fitting (w + cell_width r) max s)

fitting-prefix : (w max : ℕ) (s : Text) → (n : ℕ) × (fitting w max s ≡ take n s)
unfolding fitting
fitting-prefix w max [] = (0, refl)
fitting-prefix w max (r ∷ s) = elim (Bool-cases (ltb (max - 1) (w + cell_width r))) [
  | inl e ↦ (0, rw e)
  | inr e ↦
      let (n, p) = fitting-prefix (w + cell_width r) max s in (suc n, rw e (ap (λ t. r ∷ t) p))
]

width-ellipsis : width (ellipsis ∷ []) ≡ 1
unfolding width cell_width
width-ellipsis = refl

truncate-dropped :
    (s : Text) (max : ℕ) → leb (width s) max ≡ false → leb max 1 ≡ true → truncate s max ≡ []
unfolding truncate
truncate-dropped s max e q = rw (e, q)

truncate-cut :
    (s : Text) (max : ℕ)
    → leb (width s) max ≡ false
    → leb max 1 ≡ false
    → truncate s max ≡ fitting 0 max s ++ ellipsis ∷ []
unfolding truncate
truncate-cut s max e q = rw (e, q)

width-empty : width [] ≡ 0
unfolding width
width-empty = refl

-- A cut text takes at most `max` cells; one that fits is left as it is; and one that does not is
-- either dropped, where one cell is too few for it, or a beginning of the text and an ellipsis.
pub truncate_fits :
    (s : Text) (max : ℕ)
    → (width (truncate s max) ≤ max)
      × (width s ≤ max → truncate s max ≡ s)
      × (max < width s
          → ((max ≤ 1) × (truncate s max ≡ []))
            ⊎ ((n : ℕ) × (truncate s max ≡ take n s ++ ellipsis ∷ [])))
unfolding truncate
truncate_fits s max = elim (Bool-cases (leb (width s) max)) [
  | inl e ↦ (rw e (ground arith), (λ _. rw e), (λ h. absurd (ground arith)))
  | inr e ↦ elim (Bool-cases (leb max 1)) [
    | inl q ↦ (
      rw (truncate-dropped s max e q, width-empty) (omega arith),
      (λ h. absurd (ground arith)),
      (λ _. inl (ground arith, truncate-dropped s max e q)),
    )
    | inr q ↦ (
      rw (truncate-cut s max e q) (
          ground (
            arith,
            width-fitting 0 max s,
            width-append (fitting 0 max s) (ellipsis ∷ []),
            width-ellipsis,
          )),
      (λ h. absurd (ground arith)),
      (λ _. inr (
          let (n, p) = fitting-prefix 0 max s in
          (n, truncate-cut s max e q ∙ ap (λ t. t ++ ellipsis ∷ []) p))),
    )
  ]
]

-- A padded text takes the asked number of cells, or its own width if that is more.
pub width-pad :
    (s : Text) (w : ℕ)
    → (width (pad s w) ≡ max w (width s)) × (width (pad_left s w) ≡ max w (width s))
unfolding pad pad_left
width-pad s w = (
  omega (arith, width-append s (replicate (w - width s) 32), width-spaces (w - width s)),
  omega (arith, width-append (replicate (w - width s) 32) s, width-spaces (w - width s)),
)

-- No character of a cleaned text is a control character, and each takes the place of one.
pub clean_safe :
    (s : Text)
    → All (λ r. (0x20 ≤ r) × ((r < 0x7f) ⊎ (0x9f < r))) (clean s) × (length (clean s) ≡ length s)
unfolding clean
clean_safe [] = (tt, refl)
clean_safe (r ∷ s) = let (p, q) = clean_safe s in ((ground arith, p), ap suc q)
