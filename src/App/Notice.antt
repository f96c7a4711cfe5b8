-- ===== src/App/Notice.antt =====
-- Notifications (internal/app/notify.go, internal/notify/notify.go): the event that an observation or
-- a move announces, the user's setting, and the claim that one process wins.
use c_squad.Engine.{Live}
use c_squad.Task.{Phase, Task, finished, phase_eq}
use c_squad.Flow.Kinds.{orchestrated}
use c_squad.Store.Table.{Table, Reply, reply, Io}
use c_squad.Store.Ops.{claim_notice}
use c_squad.App.View.{Key, View, view}
use c_squad.Base.{
  ℕ, Bool, true, false, ◌&&◌, ◌||◌, not, Option, none, some, List, [], ◌∷◌, ◌++◌, ◌==◌, is_empty,
  lookup, map, if◌then◌else◌, Text, lit, text_eq, trim_space, any, leb, ◌+◌,
}

-- The events; `quiet` is the empty text.
pub data Event : Type 0 where
  quiet needs_input needs_you ready done failed merged : Event

-- The constants as the source spells them.
unfoldable pub event_word : Event → Text
event_word Event.quiet = []
event_word Event.needs_input = lit "needs_input"
event_word Event.needs_you = lit "needs_you"
event_word Event.ready = lit "ready"
event_word Event.done = lit "done"
event_word Event.failed = lit "failed"
event_word Event.merged = lit "merged"

-- The setting. Anything unknown is on.
pub data Mode : Type 0 where
  on input off : Mode

-- `strings.ToLower` where it leads to an ASCII letter; the words compared with hold no others, and the
-- one letter beside `A` to `Z` that leads to a letter of theirs is `İ`.
lower : ℕ → ℕ
lower c = if leb b'A' c && leb c b'Z' then c + 32 else if c == 0x130 then b'i' else c

unfoldable pub parse_mode : Text → Mode
unfolding lower
parse_mode v =
    let w = map lower (trim_space v) in
    if any (text_eq w) (lit "off" ∷ lit "0" ∷ lit "false" ∷ lit "no" ∷ lit "none" ∷ [])
    then Mode.off
    else if text_eq w (lit "input")
    then Mode.input
    else Mode.on

-- Whether the setting shows an event.
unfoldable pub wants : Mode → Event → Bool
wants Mode.off e = false
wants Mode.input Event.needs_input = true
wants Mode.input Event.needs_you = true
wants Mode.input e = false
wants Mode.on Event.quiet = false
wants Mode.on e = true

class_of : Key → Task → Event
class_of Key.needs_input t = Event.needs_input
class_of Key.needs_you t = Event.needs_you
class_of Key.ready t = Event.ready
class_of Key.failed t =
    if phase_eq t.phase Phase.failed || not (orchestrated t) then Event.failed else Event.quiet
class_of Key.idle t =
    if phase_eq t.phase Phase.running && not (orchestrated t) then Event.done else Event.quiet
class_of Key.done t =
    if phase_eq t.phase Phase.running && not (orchestrated t) then Event.done else Event.quiet
class_of k t = Event.quiet

-- The event that a task's view shows.
unfoldable pub notice_class : Task → View → Event
unfolding class_of
notice_class t v = class_of v.key t

class_in : Phase → Task → Event
class_in Phase.ready t = Event.ready
class_in Phase.needs_you t = Event.needs_you
class_in Phase.failed t = Event.failed
class_in Phase.done t = if is_empty t.merge_into then Event.quiet else Event.merged
class_in p t = Event.quiet

-- The event of a phase that csquad moved a task to.
unfoldable pub phase_class : Task → Event
unfolding class_in
phase_class t = class_in t.phase t

-- Whether an event comes from the task's phase, not from its session.
unfoldable pub phase_event : Task → Event → Bool
phase_event t Event.ready = true
phase_event t Event.needs_you = true
phase_event t Event.merged = true
phase_event t Event.failed = phase_eq t.phase Phase.failed
phase_event t e = false

-- Only the process that won the claim sends, and only what the setting shows.
unfoldable pub sends : Mode → Event → Table × Reply Bool → Table × Bool
sends mode class (tbl, reply send) = (tbl, send && wants mode class)
sends mode class (tbl, _) = (tbl, false)

-- Whether the row at hand shows that nothing changed: then nothing is written.
is_announced : Task → Event → Bool
is_announced t class =
    text_eq (event_word class) t.notified
    && (not (phase_event t class) || t.notified_phase == t.updated_at)

unfoldable pub raise_unless : Bool → Mode → Io → Table → Task → Event → ℕ → Table × Bool
raise_unless true mode io tbl t class at = (tbl, false)
raise_unless false mode io tbl t class at =
    sends mode class (claim_notice io tbl t (event_word class) at (phase_event t class))

-- Claims the event of a task in the table: the table after it, and whether this process sends.
unfoldable pub raise : Mode → Io → Table → Task → Event → ℕ → Table × Bool
unfolding raise_unless is_announced
raise Mode.off io tbl t class at = (tbl, false)
raise mode io tbl t class at = raise_unless (is_announced t class) mode io tbl t class at

-- A move is announced by the phase it led to.
unfoldable pub moved : Mode → Io → Table → Task → ℕ → Table × Bool
moved mode io tbl t at = elim (phase_class t) [
  | quiet ↦ (tbl, false)
  | class ↦ raise mode io tbl t class at
]

sent_for : Task → Event → Table × Bool → Table × List (ℕ × Event)
sent_for t class (tbl, send) = (tbl, if send then (t.id, class) ∷ [] else [])

raise_seen : Mode → Io → Table → Task → Option Live → ℕ → Table × List (ℕ × Event)
unfolding sent_for
raise_seen mode io tbl t none at = (tbl, [])
raise_seen mode io tbl t (some l) at =
    if finished t.phase
    then (tbl, [])
    else (let class = notice_class t (view t l true) in
        sent_for t class (raise mode io tbl t class at))

-- What one observation of tasks announces: the table after it, and the events sent for which tasks.
unfoldable pub observed :
    Mode → Io → Table → List Task → List (ℕ × Live) → ℕ → Table × List (ℕ × Event)
unfolding raise_seen
observed mode io tbl [] live at = (tbl, [])
observed mode io tbl (t ∷ ts) live at =
    let (tbl', sent) = raise_seen mode io tbl t (lookup t.id live) at in
    let (tbl'', later) = observed mode io tbl' ts live at in (tbl'', sent ++ later)
