-- ===== src/Flow/Waiting.antt =====
-- When a queued task starts, waits on, or stops for the user.
use c_squad.Task.{
  waiting, running, done, needs_you, cancelled, resume_waiting, Task, phase_eq_iff, phase_eq, label,
}
use c_squad.Flow.Kinds.{start, no_effect, Obs, stay}
use c_squad.Flow.Texts.{start_prompt}
use c_squad.Flow.Next.{dep_gone, dep_open, missing, still_open, next_waiting, dispatch, next}
use c_squad.Base.{
  ℕ, ◌≡◌, ◌≢◌, refl, ◌⊎◌, inl, inr, true, false, Option, none, some, List, [], ◌∷◌, arith, lookup,
  is_empty, All, Bool-cases, ◌||◌, ◌++◌, Text, lit, itoa,
}

-- A dependency, as looked up: done; gone (missing or cancelled); or neither.
abbrev pub IsDone : Option Task → Type 0
IsDone none = ⊥
IsDone (some d) = d.phase ≡ done

abbrev pub IsGone : Option Task → Type 0
IsGone none = Unit
IsGone (some d) = d.phase ≡ cancelled

abbrev pub IsOpen : Option Task → Type 0
IsOpen none = ⊥
IsOpen (some d) = (d.phase ≢ done) × (d.phase ≢ cancelled)

-- Some element has the property.
abbrev pub Any : (ℕ → Type 0) → List ℕ → Type 0
Any P [] = ⊥
Any P (x ∷ xs) = P x ⊎ Any P xs

IsGone-cases :
    (id : ℕ) (m : Option Task)
    → ((w : Text) × (dep_gone id m ≡ some w) × IsGone m) ⊎ ((dep_gone id m ≡ none) × ¬ IsGone m)
unfolding dep_gone
IsGone-cases id none = inl (_, refl, tt)
IsGone-cases id (some d) = elim (Bool-cases (phase_eq d.phase cancelled)) [
  | inl e ↦ inl (lit "T" ++ itoa id ++ lit " was cancelled", rw e, (phase_eq_iff _ _).0 e)
  | inr e ↦ inr (rw e, ground (arith, phase_eq_iff d.phase cancelled))
]

IsOpen-cases :
    (m : Option Task)
    → ((w : Text) × (dep_open m ≡ some w) × IsOpen m)
      ⊎ ((dep_open m ≡ none) × (IsGone m ⊎ IsDone m))
unfolding dep_open
IsOpen-cases none = inr (refl, inl tt)
IsOpen-cases (some d) = elim (Bool-cases (phase_eq d.phase cancelled || phase_eq d.phase done)) [
  | inl e ↦
      inr (ground arith, ground (arith, phase_eq_iff d.phase cancelled, phase_eq_iff d.phase done))
  | inr e ↦ inl (label d, ground arith, ground arith)
]

module _ (deps : List (ℕ × Task)) where
  missing_cases :
      (ids : List ℕ)
      → ((is_empty (missing ids deps) ≡ false) × Any (λ id. IsGone (lookup id deps)) ids)
        ⊎ ((is_empty (missing ids deps) ≡ true) × All (λ id. ¬ IsGone (lookup id deps)) ids)
  unfolding missing
  missing_cases [] = inr (refl, tt)
  missing_cases (id ∷ ids) = elim (IsGone-cases id (lookup id deps)) [
    | inl (w, e, g) ↦ inl (rw e refl, inl g)
    | inr (e, g) ↦ elim (missing_cases ids) [
      | inl (e', a) ↦ inl (rw e e', inr a)
      | inr (e', a) ↦ inr (rw e e', (g, a))
    ]
  ]

  still_open_cases :
      (ids : List ℕ)
      → ((is_empty (still_open ids deps) ≡ false) × Any (λ id. IsOpen (lookup id deps)) ids)
        ⊎ ((is_empty (still_open ids deps) ≡ true)
            × All (λ id. IsGone (lookup id deps) ⊎ IsDone (lookup id deps)) ids)
  unfolding still_open
  still_open_cases [] = inr (refl, tt)
  still_open_cases (id ∷ ids) = elim (IsOpen-cases (lookup id deps)) [
    | inl (w, e, g) ↦ inl (rw e refl, inl g)
    | inr (e, g) ↦ elim (still_open_cases ids) [
      | inl (e', a) ↦ inl (rw e e', inr a)
      | inr (e', a) ↦ inr (rw e e', (g, a))
    ]
  ]

  All-IsDone :
      (ids : List ℕ)
      → All (λ id. ¬ IsGone (lookup id deps)) ids
      → All (λ id. IsGone (lookup id deps) ⊎ IsDone (lookup id deps)) ids
      → All (λ id. IsDone (lookup id deps)) ids
  All-IsDone [] h k = tt
  All-IsDone (id ∷ ids) (h, hs) (inl g, ks) = absurd (h g)
  All-IsDone (id ∷ ids) (h, hs) (inr d, ks) = (d, All-IsDone ids hs ks)

-- What becomes of a waiting task: with a dependency gone it stops for the user, who can make it
-- wait again; else with one still open nothing changes; else it starts.
pub record Stops (t : Task) (o : Obs) : Type 0 where
  pub one_gone : Any (λ id. IsGone (lookup id o.deps)) t.after
  pub to_user : (next t o).next.phase ≡ needs_you
  pub to_resume : (next t o).next.step ≡ resume_waiting
  pub quietly : (next t o).effect.kind ≡ no_effect

pub record Waits (t : Task) (o : Obs) : Type 0 where
  pub none_gone : All (λ id. ¬ IsGone (lookup id o.deps)) t.after
  pub one_open : Any (λ id. IsOpen (lookup id o.deps)) t.after
  pub unmoved : next t o ≡ stay t

pub record Starts (t : Task) (o : Obs) : Type 0 where
  pub every_done : All (λ id. IsDone (lookup id o.deps)) t.after
  pub to_running : (next t o).next.phase ≡ running
  pub by_start : (next t o).effect.kind ≡ start
  pub with_prompt : (next t o).effect.text ≡ start_prompt t o.deps

waiting_next : (t : Task) (o : Obs) → t.phase ≡ waiting → next t o ≡ next_waiting t o
unfolding next dispatch
waiting_next t o e = rw (e, dispatch)

-- A waiting task stops for the user exactly when a dependency is missing or cancelled, stays as it
-- is when none is and one is not done yet, and starts, with the prompt that its dependencies'
-- outcomes complete, when all of them are done.
pub next-waiting : (t : Task) (o : Obs) → t.phase ≡ waiting → Stops t o ⊎ Waits t o ⊎ Starts t o
unfolding next_waiting
next-waiting t o e = elim (missing_cases o.deps t.after) [
  | inl (m, a) ↦ inl (record {
    one_gone = a;
    to_user = rw (waiting_next t o e, m);
    to_resume = rw (waiting_next t o e, m);
    quietly = rw (waiting_next t o e, m);
  })
  | inr (m, a) ↦ elim (still_open_cases o.deps t.after) [
    | inl (q, b) ↦
        inr (inl (record { none_gone = a; one_open = b; unmoved = rw (waiting_next t o e, m, q) }))
    | inr (q, b) ↦ inr (
        inr (record {
          every_done = All-IsDone o.deps t.after a b;
          to_running = rw (waiting_next t o e, m, q);
          by_start = rw (waiting_next t o e, m, q);
          with_prompt = rw (waiting_next t o e, m, q);
        }))
  ]
]
