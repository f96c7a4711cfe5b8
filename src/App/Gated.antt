-- ===== src/App/Gated.antt =====
-- When advancing a waiting task starts its session (`start` and `startQueued` of
-- internal/app/advance.go behind `Next`).
use c_squad.Engine.{Live}
use c_squad.Task.{waiting, done, Task}
use c_squad.Flow.Kinds.{no_effect, start, Move, acts}
use c_squad.Flow.Next.{next}
use c_squad.Flow.Waiting.{IsDone, next-waiting}
use c_squad.Store.Table.{Table, Reply, reply, db_error, conflict, not_found, Io}
use c_squad.Store.Ops.{get}
use c_squad.Mover.Apply.{World, Applied, apply}
use c_squad.App.Effects.{act_on, run_outside}
use c_squad.App.Observe.{Seen, observation, add_row, dep_rows}
use c_squad.App.Advance.{Pass, advance_task}
use c_squad.App.Sessions.{
  session_at, Fills, apply-session, idle_effect, locked_start, started-Fills,
}
use c_squad.Base.{
  ℕ, ◌≡◌, ◌≢◌, refl, sym, ap, subst, ◌∙◌, true, false, Option, none, some, List, [], ◌∷◌, All, ◌==◌,
  lookup, if-then, if-else, ==_iff, Bool-cases, inl, inr,
}

-- The row of this number was read, and its task is done.
abbrev pub IsRead : Io → Table → ℕ → Type 0
IsRead io tbl id = (d : Task) × (get io id tbl ≡ reply d) × (d.phase ≡ done)

some-task : {a b : Task} → Option.some a ≡ some b → a ≡ b
some-task {a} h = ap (λ o. elim o [ none ↦ a | some z ↦ z ]) h

first_row :
    (io : Io) (tbl : Table) (i id : ℕ) (rest : List (ℕ × Task)) (d : Task) (r : Reply Task)
    → get io i tbl ≡ r
    → (lookup id rest ≡ some d → get io id tbl ≡ reply d)
    → lookup id (add_row i r rest) ≡ some d
    → get io id tbl ≡ reply d
unfolding add_row
first_row io tbl i id rest d (reply s) q k h = elim (Bool-cases (i == id)) [
  | inl e ↦
      let same = some-task (sym (if-then (i == id) (some s) (lookup id rest) e) ∙ h) in
      ap (λ n. get io n tbl) (sym ((==_iff i id).0 e)) ∙ q ∙ ap reply same
  | inr e ↦ k (sym (if-else (i == id) (some s) (lookup id rest) e) ∙ h)
]
first_row io tbl i id rest d (db_error e) q k h = k h
first_row io tbl i id rest d conflict q k h = k h
first_row io tbl i id rest d not_found q k h = k h

lookup-dep_rows :
    (io : Io) (tbl : Table) (ids : List ℕ) (id : ℕ) (d : Task)
    → lookup id (dep_rows io tbl ids) ≡ some d
    → get io id tbl ≡ reply d
unfolding dep_rows
lookup-dep_rows io tbl [] id d h = cc
lookup-dep_rows io tbl (i ∷ ids) id d h =
    first_row io tbl i id (dep_rows io tbl ids) d (get io i tbl) refl
      (lookup-dep_rows io tbl ids id d) h

IsDone-IsRead :
    (io : Io) (tbl : Table) (ids : List ℕ) (id : ℕ) (o : Option Task)
    → lookup id (dep_rows io tbl ids) ≡ o
    → IsDone o
    → IsRead io tbl id
IsDone-IsRead io tbl ids id none q h = absurd h
IsDone-IsRead io tbl ids id (some d) q h = (d, lookup-dep_rows io tbl ids id d q, h)

All-IsRead :
    (io : Io) (tbl : Table) (ids wanted : List ℕ)
    → All (λ id. IsDone (lookup id (dep_rows io tbl ids))) wanted
    → All (IsRead io tbl) wanted
All-IsRead io tbl ids [] h = tt
All-IsRead io tbl ids (id ∷ wanted) (h, hs) =
    (IsDone-IsRead io tbl ids id _ refl h, All-IsRead io tbl ids wanted hs)

observed_deps :
    (tbl : Table) (s : Seen) (live : List (ℕ × Live)) (stopped : List (ℕ × ℕ)) (t : Task)
    → t.phase ≡ waiting
    → (observation tbl s live stopped t).deps ≡ dep_rows s.reading tbl t.after
unfolding observation
observed_deps tbl s live stopped t e = rw e refl

module _ (p : Pass) (live : List (ℕ × Live)) (stopped : List (ℕ × ℕ)) (w : World) (t : Task) where
  -- The move that is decided on.
  abbrev decided : Move
  decided = next t (observation w.table (p.seen t) live stopped t)

  ran-session :
      (j : ℕ)
      → ((q : World × Applied)
          → (act_on (run_outside (p.outside t)) decided.effect.kind q).table ≡ q.0.table)
      → session_at j (advance_task p live stopped w t).0.table ≡ session_at j w.table
  unfolding advance_task
  ran-session j h = elim (Bool-cases (acts decided t)) [
    | inr a ↦ rw a refl
    | inl a ↦
        rw a
          (ap (session_at j) (h _) ∙ apply-session (p.outside t).io (p.outside t).now j w t decided)
  ]

  filled-session :
      (j : ℕ)
      → decided.effect.kind ≡ start
      → Fills j w.table (advance_task p live stopped w t).0.table
  unfolding advance_task Fills
  filled-session j e =
      let out = p.outside t in
      let q = apply out.io out.now w t decided in
      let before = apply-session out.io out.now j w t decided in
      elim (Bool-cases (acts decided t)) [
        | inr a ↦ rw a (inl refl)
        | inl a ↦
            rw a
              (elim (subst (λ k. Fills j q.0.table (act_on (run_outside out) k q).table) (sym e)
                (started-Fills out q j)) [
                  | inl k ↦ inl (k ∙ before)
                  | inr k ↦ inr (sym before ∙ k)
                ])
      ]

  idle-session :
      (j : ℕ)
      → decided.effect.kind ≡ no_effect
      → session_at j (advance_task p live stopped w t).0.table ≡ session_at j w.table
  idle-session j e = ran-session j (λ q.
      ap (λ k. (act_on (run_outside (p.outside t)) k q).table) e ∙ idle_effect (p.outside t) q)

  locked-session :
      (j : ℕ)
      → decided.effect.kind ≡ start
      → (p.outside t).lock_free ≡ false
      → session_at j (advance_task p live stopped w t).0.table ≡ session_at j w.table
  locked-session j e f = ran-session j (λ q.
      ap (λ k. (act_on (run_outside (p.outside t)) k q).table) e ∙ locked_start (p.outside t) q f)

-- Advancing a waiting task changes the session that some row records only if every dependency that the
-- task lists was read from the table and is done, the lock of the task was free, and that row recorded
-- no session yet.
pub advance_task-IsGated :
    (p : Pass) (live : List (ℕ × Live)) (stopped : List (ℕ × ℕ)) (w : World) (t : Task) (j : ℕ)
    → t.phase ≡ waiting
    → session_at j (advance_task p live stopped w t).0.table ≢ session_at j w.table
    → All (IsRead (p.seen t).reading w.table) t.after
      × ((p.outside t).lock_free ≡ true)
      × (session_at j w.table ≡ some [])
unfolding Fills
advance_task-IsGated p live stopped w t j e ne =
    let o = observation w.table (p.seen t) live stopped t in
    elim (next-waiting t o e) [
      | inl s ↦ absurd (ne (idle-session p live stopped w t j s.quietly))
      | inr (inl s) ↦
          absurd (ne (idle-session p live stopped w t j (ap (λ m. m.effect.kind) s.unmoved)))
      | inr (inr s) ↦ elim (Bool-cases (p.outside t).lock_free) [
        | inr f ↦ absurd (ne (locked-session p live stopped w t j s.by_start f))
        | inl f ↦ (
          All-IsRead (p.seen t).reading w.table t.after t.after (
              subst (λ ds. All (λ id. IsDone (lookup id ds)) t.after)
                (observed_deps w.table (p.seen t) live stopped t e) s.every_done),
          f,
          elim (filled-session p live stopped w t j s.by_start) [
            | inl k ↦ absurd (ne k)
            | inr k ↦ k
          ],
        )
      ]
    ]
