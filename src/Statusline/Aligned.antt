-- ===== src/Statusline/Aligned.antt =====
-- The rows of a column take the same cells, so the columns align.
use c_squad.Statusline.Ledger.{Entry, age, entry_label}
use c_squad.Statusline.Lines.{Screen, plain, fg, spaces, line_width, Segment}
use c_squad.Statusline.Usage.{shows_change, total_part, change_part}
use c_squad.Statusline.Columns.{
  Fit, Fields, field_gap, usage_width, span, row_width, needs, widest, all_needs, measure, row_rest,
  rail, block_part, badge_part, usage_part, state_part, mark_part, age_part, bolder, cell,
  usage_cell,
}
use c_squad.Statusline.Width.{width, cell_width, truncate}
use c_squad.Statusline.Fit.{width-pad}
use c_squad.Statusline.Parts.{
  line_width-append, spaces-width, fg-width, title_text-width, usage_cell-width, one-space,
}
use c_squad.Base.{
  ◌+◌, ◌-◌, ◌≤◌, ◌<◌, ◌≡◌, refl, ap, ◌∙◌, if-then, if-else, inl, inr, Bool, true, false, Bool-cases,
  ◌&&◌, List, [], ◌∷◌, arith, ltb, leb, is_empty, if◌then◌else◌, All, All-map,
}

-- Every field of one is as wide in the other.
record IsWithin (a b : Fields) : Type 0 where
  id : a.id ≤ b.id
  title : a.title ≤ b.title
  state : a.state ≤ b.state
  total : a.total ≤ b.total
  change : a.change ≤ b.change
  age : a.age ≤ b.age
  block : a.block ≤ b.block
  marks : a.marks ≡ true → b.marks ≡ true

-- A row whose glyph takes one cell, as every style has it, and whose engine mark does, if it has one.
pub record IsMarked (e : Entry) : Type 0 where
  pub glyph : width e.style.glyph ≡ 1
  pub mark : is_empty e.task.mark ≡ false → width e.task.mark ≡ 1

two_spaces : width (32 ∷ 32 ∷ []) ≡ 2
unfolding width cell_width
two_spaces = refl

usage_width-pos : (w : Fields) → 0 < usage_width w → 0 < w.total
unfolding usage_width
usage_width-pos w h = ground arith

span-some : (w : Fields) → ltb 0 (usage_width w) ≡ true → span w ≡ 2 + usage_width w
unfolding span
span-some w h = rw h

span-none : (w : Fields) → ltb 0 (usage_width w) ≡ false → span w ≡ 0
unfolding span
span-none w h = rw h

usage_part-some :
    (p : Screen) (e : Entry) (w : Fields) (f : Fit)
    → ltb 0 (span w) ≡ true
    → usage_part p e w f ≡ plain (32 ∷ 32 ∷ []) ∷ usage_cell p e w (leb 2 f.usage)
unfolding usage_part
usage_part-some p e w f h = rw h

usage_part-none :
    (p : Screen) (e : Entry) (w : Fields) (f : Fit)
    → ltb 0 (span w) ≡ false
    → usage_part p e w f ≡ []
unfolding usage_part
usage_part-none p e w f h = rw h

rail-width : (heavy : Bool) → width (rail heavy) ≡ 1
unfolding rail width cell_width
rail-width true = refl
rail-width false = refl

bolder-width : (bold : Bool) (s : Segment) → width (bolder bold s).text ≡ width s.text
unfolding bolder
bolder-width true s = refl
bolder-width false s = refl

widest-left : (a b : Fields) → IsWithin a (widest a b)
widest-left a b = ground arith

widest-right : (a b c : Fields) → IsWithin a b → IsWithin a (widest c b)
widest-right a b c h = ground arith

module _ (p : Screen) (f : Fit) where
  needs-All : (es : List Entry) → All (λ e. IsWithin (needs p f e) (all_needs p f es)) es
  unfolding all_needs
  needs-All [] = tt
  needs-All (e ∷ es) = (
    widest-left (needs p f e) (all_needs p f es),
    All-map (λ d h. widest-right (needs p f d) (all_needs p f es) (needs p f e) h) es
        (needs-All es),
  )

  -- Without a usage cell no total is measured.
  no_total : (es : List Entry) → 0 < (all_needs p f es).total → 1 ≤ f.usage
  unfolding all_needs needs
  no_total [] h = absurd (omega (arith, h))
  no_total (e ∷ es) h = ground (arith, no_total es)

  module _ (e : Entry) (w : Fields) (k : IsWithin (needs p f e) w)
      (b : span w + w.state ≤ w.block) where
    badge_fits : e.style.urgent ≡ true → width (truncate e.state f.badge) ≤ w.block
    unfolding needs
    badge_fits u = ground (arith, k.block)

    state_fits : e.style.urgent ≡ false → width (truncate e.state f.state) ≤ w.state
    unfolding needs
    state_fits u = ground (arith, k.state)

    total_fits : 1 ≤ f.usage → width (total_part p e).text ≤ w.total
    unfolding needs
    total_fits u = ground (arith, k.total)

    change_fits :
        leb 2 f.usage ≡ true → shows_change e ≡ true → width (change_part p e).text ≤ w.change
    unfolding needs
    change_fits u s = ground (arith, k.change)

    badge_part-width : e.style.urgent ≡ true → line_width (badge_part p e w f) ≡ w.block
    unfolding badge_part line_width
    badge_part-width u =
        omega (arith, badge_fits u, spaces-width (w.block - width (truncate e.state f.badge)))

    usage_part-width : (0 < w.total → 1 ≤ f.usage) → line_width (usage_part p e w f) ≡ span w
    unfolding line_width
    usage_part-width t = elim (Bool-cases (ltb 0 (usage_width w))) [
      | inl q ↦
          let pos = usage_width-pos w (ground arith) in
          let full = usage_cell-width p e w (leb 2 f.usage) pos (total_fits (t pos)) change_fits in
          let some_span = span-some w q in
          rw (usage_part-some p e w f (ground (arith, some_span)))
            (omega (arith, full, two_spaces, some_span))
      | inr q ↦
          rw (usage_part-none p e w f (ground (arith, span-none w q)))
            (omega (arith, span-none w q))
    ]

    state_part-width :
        e.style.urgent ≡ false
        → (0 < w.total → 1 ≤ f.usage)
        → line_width (state_part p e w f) ≡ w.block
    unfolding state_part line_width
    state_part-width u t =
        let gap = spaces-width (w.state - width (truncate e.state f.state)) in
        let rest = spaces-width (w.block - w.state - span w) in
        omega (
          arith,
          state_fits u,
          bolder-width e.style.bold (fg p e.style.rgb (truncate e.state f.state)),
          fg-width p e.style.rgb (truncate e.state f.state),
          gap,
          rest,
          b,
          usage_part-width t,
          line_width-append (usage_part p e w f) (spaces (w.block - w.state - span w) ∷ []),
        )

    label_fits : width (entry_label e) ≤ w.id
    unfolding needs
    label_fits = k.id

    mark_part-width :
        IsMarked e → line_width (mark_part w.marks e.task.mark) ≡ (if w.marks then 2 else 0)
    unfolding mark_part line_width
    mark_part-width m = ground (arith, m.mark, one-space)

    age_part-width : line_width (age_part p e w) ≡ (if ltb 0 w.age then field_gap + w.age else 0)
    unfolding age_part line_width needs
    age_part-width =
        let padded = (width-pad (age e.task.since p.now) w.age).1 in
        elim (Bool-cases (ltb 0 w.age)) [
          | inl q ↦ rw q (omega (arith, padded, k.age, two_spaces))
          | inr q ↦ rw q refl
        ]

    block_part-width : (0 < w.total → 1 ≤ f.usage) → line_width (block_part p e w f) ≡ w.block
    unfolding block_part
    block_part-width t = elim (Bool-cases e.style.urgent) [
      | inl u ↦ ap line_width (if-then e.style.urgent _ _ u) ∙ badge_part-width u
      | inr u ↦ ap line_width (if-else e.style.urgent _ _ u) ∙ state_part-width u t
    ]

    row_rest-width :
        (0 < w.total → 1 ≤ f.usage)
        → line_width (row_rest p e w f)
          ≡ w.title + 2 + w.block + (if ltb 0 w.age then field_gap + w.age else 0)
    unfolding row_rest line_width
    row_rest-width t = omega (
      arith,
      title_text-width w.title e.title,
      two_spaces,
      line_width-append (block_part p e w f) (age_part p e w),
      block_part-width t,
      age_part-width,
    )

    -- The row of a task takes the width of its column.
    cell_fills : IsMarked e → (0 < w.total → 1 ≤ f.usage) → line_width (cell p e w f) ≡ row_width w
    unfolding cell line_width row_width
    cell_fills m t = omega (
      arith,
      fg-width p e.style.rgb (rail (e.style.urgent && p.no_color)),
      rail-width (e.style.urgent && p.no_color),
      fg-width p e.style.rgb e.style.glyph,
      m.glyph,
      one-space,
      (width-pad (entry_label e) w.id).0,
      label_fits,
      line_width-append (mark_part w.marks e.task.mark) (row_rest p e w f),
      mark_part-width m,
      row_rest-width t,
    )

All-both : (P Q : Entry → Type 0) (es : List Entry) → All P es → All Q es → All (λ e. P e × Q e) es
All-both P Q [] h k = tt
All-both P Q (e ∷ es) (p, h) (q, k) = ((p, q), All-both P Q es h k)

module _ (p : Screen) (f : Fit) (es : List Entry) where
  within :
      (e : Entry)
      → IsWithin (needs p f e) (all_needs p f es)
      → IsWithin (needs p f e) (measure p f es)
  unfolding measure
  within e h = ground (arith, h)

  total_holds : 0 < (measure p f es).total → 1 ≤ f.usage
  unfolding measure
  total_holds h = no_total p f es h

  block_holds : span (measure p f es) + (measure p f es).state ≤ (measure p f es).block
  unfolding measure span usage_width
  block_holds = omega arith

-- Every row of a column takes the width of the column, so what stands behind it is aligned, whatever was
-- cut or dropped to fit.
pub cell-row_width :
    (p : Screen) (f : Fit) (es : List Entry)
    → All IsMarked es
    → All (λ e. line_width (cell p e (measure p f es) f) ≡ row_width (measure p f es)) es
cell-row_width p f es m =
    let w = measure p f es in
    All-map
      (λ e h.
        cell_fills p f e w (within p f es e h.0) (block_holds p f es) h.1 (total_holds p f es))
      es
      (All-both (λ e. IsWithin (needs p f e) (all_needs p f es)) IsMarked es (needs-All p f es) m)
