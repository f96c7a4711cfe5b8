-- ===== src/Flow/Resume.antt =====
-- `csquad retry` of a task that needs the user (internal/flow/flow.go): `Retry`.
use c_squad.Task.{
  needs_you, waiting, checking, fixing, merging, Step, no_step, resume_waiting, resume_round,
  resume_check, resume_merge, Task, phase_eq, phase_word, label,
}
use c_squad.Flow.Kinds.{check, send, land, Move, no_op, to, act}
use c_squad.Flow.Texts.{fix_message}
use c_squad.Flow.Next.{previous}
use c_squad.Base.{◌+◌, not, ◌++◌, if◌then◌else◌, Text, lit, itoa, replace_all}

pub data Retried : Type 0 where
  resumed : Move → Retried
  refused : Text → Retried

unfoldable pub resume : Step → Task → Retried
resume resume_waiting t =
    resumed
      (record { next = to t waiting no_step; effect = no_op; reason = lit "retry: waiting again" })
resume resume_check t =
    resumed
      (act (to t checking no_step) check (lit "retry: check " ++ itoa t.round ++ lit " again"))
resume resume_merge t = resumed (act (to t merging no_step) land (lit "retry: merging again"))
resume resume_round t =
    let n = record (to t fixing no_step) { max_rounds = t.max_rounds + 1; round = t.round + 1 } in
    let cur = record t { max_rounds = n.max_rounds } in
    resumed (record {
      next = n;
      effect = record { kind = send; text = fix_message cur (previous t.last_check) };
      reason =
          lit "retry: one more round ("
          ++ itoa n.round
          ++ lit " of "
          ++ itoa n.max_rounds
          ++ lit ")";
    })
resume _ t = refused (
    label t
    ++ lit " cannot resume by itself ("
    ++ t.note
    ++ lit "); attach to the session or cancel it")

unfoldable pub retry : Task → Retried
unfolding resume
retry t =
    if not (phase_eq t.phase needs_you)
    then refused (
        label t
        ++ lit " is "
        ++ replace_all (phase_word t.phase) b'_' (lit " ")
        ++ lit "; retry resumes a task that needs you")
    else resume t.step t
