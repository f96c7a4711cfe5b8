-- ===== src/App/Again.antt =====
-- A check that was interrupted once its verdict is kept: what is read back.
use c_squad.Engine.{Live}
use c_squad.Verdict.{Verdict}
use c_squad.Task.{Task, checking, phase_eq, phase_eq_iff}
use c_squad.Store.Table.{Table}
use c_squad.App.Observe.{Seen, read_verdict, observation}
use c_squad.App.Check.{Station, verdict_of, verdict_or}
use c_squad.Base.{ℕ, ◌≡◌, refl, ap, ◌∙◌, false, Option, none, some, List, if-then, ==_iff, arith}

-- The verdict is for this version of the task and its round.
abbrev IsFor : Task → Verdict → Type 0
IsFor t v = (v.for ≡ t.updated_at) × (v.round ≡ t.round)

read_verdict-for : (t : Task) (v : Verdict) → IsFor t v → read_verdict t (some v) ≡ some v
unfolding read_verdict
read_verdict-for t v (f, r) = ground (arith, ==_iff v.for t.updated_at, ==_iff v.round t.round)

read_verdict-IsFor :
    (t : Task) (f : Option Verdict) (v : Verdict) → read_verdict t f ≡ some v → IsFor t v
unfolding read_verdict
read_verdict-IsFor t none v h = cc
read_verdict-IsFor t (some u) v h =
    ground (arith, h, ==_iff u.for t.updated_at, ==_iff u.round t.round)

verdict_or-IsFor :
    (s : Station) (t : Task) (r : Option Verdict)
    → ((v : Verdict) → r ≡ some v → IsFor t v)
    → IsFor t (verdict_or s t r).0
unfolding verdict_or
verdict_or-IsFor s t (some v) h = h v refl
verdict_or-IsFor s t none h = (refl, refl)

verdict_of-IsFor : (s : Station) (t : Task) → IsFor t (verdict_of s t).0
unfolding verdict_of
verdict_of-IsFor s t = verdict_or-IsFor s t (read_verdict t s.file) (read_verdict-IsFor t s.file)

-- A check that is run again on the same version of a task, once its verdict is in the file, takes that
-- verdict and writes none, and every advance that looks at the checking task is told the same verdict.
pub verdict_of-again :
    (s : Station) (t : Task) (tbl : Table) (seen : Seen) (live : List (ℕ × Live))
    (stopped : List (ℕ × ℕ))
    → t.phase ≡ checking
    → (verdict_of (record s { file = some (verdict_of s t).0 }) t ≡ ((verdict_of s t).0, false))
      × ((observation tbl
            (record seen { verdict_file = some (verdict_of s t).0 })
            live
            stopped
            t).verdict
          ≡ some (verdict_of s t).0)
unfolding verdict_of observation verdict_or
verdict_of-again s t tbl seen live stopped h =
    let v = (verdict_of s t).0 in
    let same = read_verdict-for t v (verdict_of-IsFor s t) in
    (
      ap (λ r. verdict_or (record s { file = some v }) t r) same,
      if-then (phase_eq t.phase checking) _ _ ((phase_eq_iff t.phase checking).1 h) ∙ same,
    )
