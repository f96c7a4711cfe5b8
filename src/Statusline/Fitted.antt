-- ===== src/Statusline/Fitted.antt =====
-- Which grid and fit of the ledger (internal/statusline/ledger.go) the layout takes.
use c_squad.Statusline.Ledger.{Entry}
use c_squad.Statusline.Lines.{Screen, Line}
use c_squad.Statusline.Columns.{Fit}
use c_squad.Statusline.Tries.{Grid, fit_steps, chunks}
use c_squad.Statusline.Layout.{
  choose, fits, try_fit, total_width, with_usage, roomier, lines_of, laid, or_later, is_single,
}
use c_squad.Base.{
  ℕ, ◌≤◌, ◌<◌, ◌≡◌, refl, sym, ap, subst, if-then, if-else, ◌∙◌, ◌⊎◌, inl, inr, Bool, true, false,
  ◌&&◌, ◌||◌, not, is_empty, Bool-cases, Option, none, some, List, [], ◌∷◌, All, length, take, drop,
  arith, if◌then◌else◌,
}

-- The columns of a grid.
abbrev pub columns_of : List Entry → Grid → List (List Entry)
columns_of es g = chunks g.rows (take g.shown es)

abbrev pub IsTooWide : Screen → List (List Entry) → ℕ → Fit → Type 0
IsTooWide p cols usable f = usable < total_width (try_fit p cols f)

-- The fits that are tried in a grid.
abbrev pub steps_of : List Entry → Grid → List Fit
steps_of es g = fit_steps (take g.shown es) (not (is_single (columns_of es g)))

-- The list ends with this fit.
pub data Ends : List Fit → Fit → Type 0 where
  at_end : (f : Fit) → Ends (f ∷ []) f
  before_end : (d f : Fit) (fs : List Fit) → Ends fs f → Ends (d ∷ fs) f

-- Lines of the first grid of which a fit fits, as that fit or a roomier one that fits too; a single
-- column is taken with its last fit where none fits.
pub data Shows (p : Screen) (es : List Entry) (usable : ℕ) : List Grid → List Line → Type 0 where
  fitted :
      (g : Grid) (gs : List Grid) (f : Fit)
      → total_width (try_fit p (columns_of es g) f) ≤ usable
      → Shows p es usable (g ∷ gs) (lines_of p (columns_of es g) (drop g.shown es) f usable)
  squeezed :
      (g : Grid) (gs : List Grid) (f : Fit)
      → length (columns_of es g) ≡ 1
      → All (IsTooWide p (columns_of es g) usable) (steps_of es g)
      → Ends (steps_of es g) f
      → Shows p es usable (g ∷ gs) (lines_of p (columns_of es g) (drop g.shown es) f usable)
  skipped :
      (g : Grid) (gs : List Grid) (ls : List Line)
      → All (IsTooWide p (columns_of es g) usable) (steps_of es g)
      → Shows p es usable gs ls
      → Shows p es usable (g ∷ gs) ls

last_empty :
    (last : Bool) (fs : List Fit) (b : Bool)
    → (b || (last && is_empty fs)) ≡ true
    → b ≡ false
    → (last ≡ true) × (fs ≡ [])
last_empty last fs true h e = cc
last_empty true [] false h e = (refl, refl)
last_empty true (f ∷ fs) false h e = cc
last_empty false fs false h e = cc

some-inj : {x y : Fit} → Option.some x ≡ some y → x ≡ y
some-inj {x} h = ap (λ o. elim o [ none ↦ x | some z ↦ z ]) h

module _ (p : Screen) (cols : List (List Entry)) (usable : ℕ) where
  roomier-fits :
      (f : Fit) (us : List ℕ)
      → fits usable (try_fit p cols f) ≡ true
      → fits usable (try_fit p cols (roomier p cols usable f us)) ≡ true
  unfolding roomier
  roomier-fits f [] h = h
  roomier-fits f (u ∷ us) h =
      elim (Bool-cases (fits usable (try_fit p cols (record f { usage = u })))) [
        | inl e ↦ rw e e
        | inr e ↦ rw e (roomier-fits f us h)
      ]

  with_usage-fits :
      (f : Fit)
      → fits usable (try_fit p cols f) ≡ true
      → fits usable (try_fit p cols (with_usage p cols usable f)) ≡ true
  unfolding with_usage
  with_usage-fits f h = rw h (roomier-fits f _ h)

  is_too_wide : (f : Fit) → fits usable (try_fit p cols f) ≡ false → IsTooWide p cols usable f
  is_too_wide f h = ground (arith, h)

  with_usage-too_wide :
      (f : Fit) → fits usable (try_fit p cols f) ≡ false → with_usage p cols usable f ≡ f
  unfolding with_usage
  with_usage-too_wide f h = if-else (fits usable (try_fit p cols f)) _ _ h

  none_left :
      (b : Bool) (f : Fit) (rest : Option Fit)
      → (if b then some f else rest) ≡ none
      → (b ≡ false) × (rest ≡ none)
  none_left true f rest h = cc
  none_left false f rest h = (refl, h)

  left_false : (b c : Bool) → (b || c) ≡ false → b ≡ false
  left_false false c h = refl
  left_false true c h = cc

  choose-none :
      (last : Bool) (fs : List Fit)
      → choose p cols usable last fs ≡ none
      → All (IsTooWide p cols usable) fs
  unfolding choose
  choose-none last [] h = tt
  choose-none last (f ∷ fs) h =
      let (b, r) = none_left _ _ _ h in (is_too_wide f (left_false _ _ b), choose-none last fs r)

  -- The fit that was chosen fits, or none does and it is the last one of a single column.
  Chosen : Bool → List Fit → Fit → Type 0
  Chosen last fs f =
      (total_width (try_fit p cols f) ≤ usable)
      ⊎ ((last ≡ true) × All (IsTooWide p cols usable) fs × Ends fs f)

  taken-Chosen :
      (last : Bool) (d : Fit) (fs : List Fit)
      → (fits usable (try_fit p cols d) || (last && is_empty fs)) ≡ true
      → Chosen last (d ∷ fs) (with_usage p cols usable d)
  unfolding Chosen
  taken-Chosen last d fs h = elim (Bool-cases (fits usable (try_fit p cols d))) [
    | inl e ↦ let k = with_usage-fits d e in inl (ground (arith, k))
    | inr e ↦
        let l = last_empty last fs _ h e in
        inr (
          l.0,
          (is_too_wide d e, subst (All (IsTooWide p cols usable)) (sym l.1) tt),
          subst (λ f. Ends (d ∷ fs) f) (sym (with_usage-too_wide d e))
              (subst (λ gs. Ends (d ∷ gs) d) (sym l.1) (at_end d)),
        )
  ]

  choose-Chosen :
      (last : Bool) (fs : List Fit) (f : Fit)
      → choose p cols usable last fs ≡ some f
      → Chosen last fs f
  unfolding choose Chosen
  choose-Chosen last [] f h = cc
  choose-Chosen last (d ∷ fs) f h =
      let b = fits usable (try_fit p cols d) || (last && is_empty fs) in
      elim (Bool-cases b) [
        | inl e ↦
            subst (Chosen last (d ∷ fs)) (some-inj (sym (if-then b _ _ e) ∙ h))
              (taken-Chosen last d fs e)
        | inr e ↦ elim (choose-Chosen last fs f (sym (if-else b _ _ e) ∙ h)) [
          | inl k ↦ inl k
          | inr (l, w, n) ↦ inr (l, (is_too_wide d (left_false _ _ e), w), before_end d f fs n)
        ]
      ]

single_column : (cols : List (List Entry)) → is_single cols ≡ true → length cols ≡ 1
single_column cols h = ground (arith, h)

module _ (p : Screen) (es : List Entry) (usable : ℕ) where
  pub laid-Shows :
      (g : Grid) (gs : List Grid) (later : List Line) (o : Option Fit)
      → choose p (columns_of es g) usable (is_single (columns_of es g)) (steps_of es g) ≡ o
      → ((o ≡ none) → Shows p es usable gs later)
      → Shows p es usable
          (g ∷ gs)
          (or_later (laid p (columns_of es g) (drop g.shown es) usable o) later)
  unfolding laid or_later Chosen
  laid-Shows g gs later none e k =
      skipped g gs later (choose-none p (columns_of es g) usable _ (steps_of es g) e) (k refl)
  laid-Shows g gs later (some f) e k =
      elim (choose-Chosen p (columns_of es g) usable _ (steps_of es g) f e) [
        | inl h ↦ fitted g gs f h
        | inr (l, w, n) ↦ squeezed g gs f (single_column (columns_of es g) l) w n
      ]
