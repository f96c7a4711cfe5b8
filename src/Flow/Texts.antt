-- ===== src/Flow/Texts.antt =====
-- The texts that the flow writes (internal/flow/flow.go): prompts, messages to the worker, and notes.
use c_squad.Verdict.{Verdict, Finding, format_finding}
use c_squad.Task.{Task, Outcome, name}
use c_squad.Flow.Kinds.{Landing}
use c_squad.Base.{
  ℕ, ◌-◌, ◌&&◌, not, Option, none, some, List, [], ◌∷◌, ◌++◌, map, ltb, length, is_empty, drop,
  take, lookup, if◌then◌else◌, Text, lit, itoa, join, trim_space, fields, replace_all,
}

newline : ℕ
newline = 10

-- What one dependency left, from its name and its outcome.
left_by : Text → Option Outcome → Text
left_by who none = lit "\n" ++ who ++ lit ": finished." ++ lit "\n"
left_by who (some oc) =
    let f = trim_space oc.final in
    lit "\n"
    ++ (who
        ++ ((if not (is_empty oc.branches) && not (is_empty oc.target)
              then lit ": merged "
                ++ join oc.branches (lit ", ")
                ++ lit " into "
                ++ oc.target
                ++ lit "."
              else if not (is_empty oc.target)
              then lit ": finished; its work is in " ++ oc.target ++ lit "."
              else lit ": finished.")
            ++ (if is_empty f
                then lit "\n"
                else lit " Its final message:\n<<<\n" ++ f ++ lit "\n>>>\n")))

-- A dependency that is missing from the map reads as Go's zero task, whose name is "T0 · ".
left_by_all : List ℕ → List (ℕ × Task) → Text
left_by_all [] deps = []
left_by_all (id ∷ ids) deps =
    (elim (lookup id deps) [
      | none ↦ left_by (lit "T0 · ") none
      | some d ↦ left_by (name d) d.outcome
    ])
    ++ left_by_all ids deps

-- A queued task's prompt with what its dependencies left.
unfoldable pub start_prompt : Task → List (ℕ × Task) → Text
unfolding left_by left_by_all
start_prompt t deps =
    if is_empty t.after
    then t.prompt
    else t.prompt
      ++ lit "\n\n---\nThis task was queued to start after "
      ++ join (map (λ id. lit "T" ++ itoa id) t.after) (lit ", ")
      ++ lit ", which are done. What they left:\n"
      ++ left_by_all t.after deps

-- The last three blocking counts.
unfoldable pub counts : List ℕ → Text
counts h =
    let h' = if ltb 3 (length h) then drop (length h - 3) h else h in join (map itoa h') (lit " → ")

unfoldable pub one_line : Text → Text
one_line s =
    let s' = join (fields s) (lit " ") in if ltb 120 (length s') then take 119 s' ++ lit "…" else s'

finding_lines : List Finding → Text
unfolding newline
finding_lines [] = []
finding_lines (f ∷ fs) =
    lit "- " ++ replace_all (format_finding f) newline (lit "\n  ") ++ lit "\n" ++ finding_lines fs

-- What the worker gets when a check fails.
unfoldable pub fix_message : Task → Verdict → Text
unfolding finding_lines
fix_message t v =
    let s = trim_space v.summary in
    lit "csquad: check "
    ++ itoa t.round
    ++ lit " of "
    ++ itoa t.max_rounds
    ++ lit " ("
    ++ t.check_spec
    ++ lit ") did not pass."
    ++ (if is_empty s then [] else lit " " ++ s)
    ++ lit "\n\nFindings:\n"
    ++ finding_lines v.findings
    ++ lit
        "\nFix them in your worktree, re-run the relevant tests, commit, and end your turn with a short result. csquad checks the work again when you stop."

-- What the worker gets when its branch does not rebase cleanly onto the target.
unfoldable pub merge_request : Landing → Text
merge_request l =
    lit "csquad: the work is accepted, but "
    ++ l.branch
    ++ lit " does not rebase cleanly onto "
    ++ l.target
    ++ lit ". In your worktree "
    ++ l.dir
    ++ lit " run `git rebase "
    ++ l.target
    ++ lit
        "`, resolve the conflicts, re-run the relevant tests and complete the rebase, so the branch is committed and clean. Do not merge into "
    ++ l.target
    ++ lit " and do not touch the main checkout: csquad fast-forwards "
    ++ l.target
    ++ lit " itself when you stop.\n\nWhat git said:\n"
    ++ trim_space l.conflict

-- The texts of the notes and reasons that name numbers.
unfoldable pub check_of : ℕ → ℕ → Text
check_of round max_rounds =
    lit "the worker stopped; check " ++ itoa round ++ lit " of " ++ itoa max_rounds

unfoldable pub passed_text : ℕ → Text
passed_text round = lit "check " ++ itoa round ++ lit " passed"

unfoldable pub max_rounds_text : Task → Verdict → Text
max_rounds_text t v =
    lit "max rounds: "
    ++ itoa t.round
    ++ lit " of "
    ++ itoa t.max_rounds
    ++ lit " checks did not pass ("
    ++ one_line v.summary
    ++ lit "); csquad retry runs one more round"

unfoldable pub not_converging_text : Verdict → Text
not_converging_text v =
    lit "not converging: blocking findings "
    ++ counts v.blocking
    ++ lit " over the last rounds; csquad retry runs one more round"

unfoldable pub findings_sent_text : ℕ → Text
findings_sent_text round = lit "check " ++ itoa round ++ lit " did not pass; findings sent"

unfoldable pub still_conflicts_text : Landing → Text
still_conflicts_text l =
    lit "merge conflict: "
    ++ l.branch
    ++ lit " still does not rebase onto "
    ++ l.target
    ++ lit "; csquad retry tries again"
