-- ===== src/Statusline/Grids.antt =====
-- The grids that the layout tries: four lines at most, and one of them a single column.
use c_squad.Statusline.Tries.{Grid, full_grids, cut_grids, grids}
use c_squad.Base.{
  ℕ, zero, suc, ◌+◌, ◌-◌, ◌/◌, ◌≤◌, min, ◌≡◌, ◌⊎◌, inl, inr, Bool-cases, List, [], ◌∷◌, ◌++◌, arith,
  leb, All,
}

-- A grid for `n` tasks: at most four rows, three of them where tasks are left over.
pub record IsGrid (n : ℕ) (g : Grid) : Type 0 where
  pub some_rows : 1 ≤ g.rows
  pub four_rows : g.rows ≤ 4
  pub shows : 1 ≤ g.shown
  pub or_three : (n ≤ g.shown) ⊎ (g.rows ≤ 3)

full_grids-IsGrid :
    (n r left : ℕ) → 1 ≤ r → 1 ≤ n → r + left ≤ 5 → All (IsGrid n) (full_grids n r left)
unfolding full_grids
full_grids-IsGrid n r zero h k m = tt
full_grids-IsGrid n r (suc left) h k m = (
  record { some_rows = h; four_rows = omega (arith, m); shows = k; or_three = inl (omega arith) },
  full_grids-IsGrid n (r + 1) left (omega arith) k (omega (arith, m)),
)

cut_grids-IsGrid : (n ncol : ℕ) → All (IsGrid n) (cut_grids ncol)
unfolding cut_grids
cut_grids-IsGrid n zero = tt
cut_grids-IsGrid n (suc ncol) = (
  record {
    some_rows = omega arith;
    four_rows = omega arith;
    shows = omega arith;
    or_three = inr (omega arith);
  },
  cut_grids-IsGrid n ncol,
)

All-append : {A : Type 0} (P : A → Type 0) (xs ys : List A) → All P xs → All P ys → All P (xs ++ ys)
All-append P [] ys h k = k
All-append P (x ∷ xs) ys (p, h) k = (p, All-append P xs ys h k)

pub grids-IsGrid : (n : ℕ) → 1 ≤ n → All (IsGrid n) (grids n)
unfolding grids
grids-IsGrid n h =
    All-append (IsGrid n) (full_grids n 1 (min n 4)) _
      (full_grids-IsGrid n 1 (min n 4) (omega arith) h (omega arith))
      (cut_grids-IsGrid n ((n + 4 - 1) / 4 - 1))

-- A grid whose tasks stand in one column.
unfoldable pub IsSingle : ℕ → Grid → Type 0
IsSingle n g = (1 ≤ min g.shown n) × (min g.shown n ≤ g.rows)

-- Some grid of the list is a single column, so that the search ends with lines.
unfoldable pub HasSingle : ℕ → List Grid → Type 0
unfolding IsSingle
HasSingle n [] = ⊥
HasSingle n (g ∷ gs) = IsSingle n g ⊎ HasSingle n gs

HasSingle-left : (n : ℕ) (gs hs : List Grid) → HasSingle n gs → HasSingle n (gs ++ hs)
unfolding HasSingle
HasSingle-left n [] hs h = absurd h
HasSingle-left n (g ∷ gs) hs (inl s) = inl s
HasSingle-left n (g ∷ gs) hs (inr s) = inr (HasSingle-left n gs hs s)

HasSingle-right : (n : ℕ) (gs hs : List Grid) → HasSingle n hs → HasSingle n (gs ++ hs)
unfolding HasSingle
HasSingle-right n [] hs h = h
HasSingle-right n (g ∷ gs) hs h = inr (HasSingle-right n gs hs h)

full_grids-HasSingle :
    (n r left : ℕ) → 1 ≤ n → 1 ≤ left → r + left ≡ n + 1 → HasSingle n (full_grids n r left)
unfolding HasSingle full_grids IsSingle
full_grids-HasSingle n r zero h k e = absurd (omega (arith, k))
full_grids-HasSingle n r (suc zero) h k e = inl (omega (arith, h), omega (arith, e))
full_grids-HasSingle n r (suc (suc left)) h k e =
    inr (full_grids-HasSingle n (r + 1) (suc left) h (omega arith) (omega (arith, e)))

cut_grids-HasSingle : (n ncol : ℕ) → 1 ≤ n → 1 ≤ ncol → HasSingle n (cut_grids ncol)
unfolding HasSingle cut_grids IsSingle
cut_grids-HasSingle n zero h k = absurd (omega (arith, k))
cut_grids-HasSingle n (suc zero) h k = inl (omega (arith, h), omega arith)
cut_grids-HasSingle n (suc (suc ncol)) h k = inr (cut_grids-HasSingle n (suc ncol) h (omega arith))

pub grids-HasSingle : (n : ℕ) → 1 ≤ n → HasSingle n (grids n)
unfolding grids
grids-HasSingle n h = elim (Bool-cases (leb n 4)) [
  | inl q ↦
      HasSingle-left n (full_grids n 1 (min n 4)) _
        (full_grids-HasSingle n 1 (min n 4) h (omega (arith, h)) (ground (arith, q)))
  | inr q ↦
      HasSingle-right n (full_grids n 1 (min n 4)) _
        (cut_grids-HasSingle n ((n + 4 - 1) / 4 - 1) h (ground (arith, q)))
]
