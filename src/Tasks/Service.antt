-- ===== src/Tasks/Service.antt =====
-- src/modules/tasks/tasks.service.ts: the operations on a task that is there. The audit log and the
-- logger are I/O and left out. `start`, `complete`, `reject` and `cancel` give the tables and the
-- task that they return. An operation reads the task, tests it, and then opens a transaction, which
-- is a definition of its own: its tables need not be the ones that the task was read from. The
-- operation itself is what the session does if no other one writes in between.

pub mod Terminal
pub mod Spawning
pub mod Steps
pub mod Settling
pub mod Completion
pub mod Occurrence
pub mod Recurs
pub mod Overwriting
mod Tests
use radha_backend.Prelude.{
  ℕ, ◌+◌, ◌-◌, ◌/◌, String, Bool, true, false, Option, none, some, List, [], ◌∷◌, or_else,
  or_option, if◌then◌else◌, Result, ok, err, ◌>>=◌, ◌>>◌, throw_if, not_found, business,
  business_rule_violation,
}
use radha_backend.Prelude.Table.{create, update}
use radha_backend.Tasks.Types.{
  Task, Event, Tables, Fresh, Status, in_progress, completed, rejected, cancelled, EventType,
  started_event, completed_event, rejected_event, cancelled_event, NewEvidence, CompleteTask,
  ReassignTask,
}
use radha_backend.Tasks.Workflow.{validate_transition, is_terminal}
use radha_backend.Tasks.Repositories.{find_task, list_for_task}
use radha_backend.Tasks.Evidence.{add, add_many, ensure_requirements_met}
use radha_backend.Tasks.Assignments.{assert_active_assignment, reassign_task}
use radha_backend.Tasks.Recurring.{spawn_next_occurrence}

-- `if (!task) throw new DomainNotFoundException('Task', id)`
abbrev pub own_task : Option Task → Result Task
own_task none = err not_found
own_task (some task) = ok task

abbrev pub transition_event : EventType → Task → ℕ → Status → Option String → Event
transition_event type task actor to notes = record {
  task_id = task.id;
  tenant_id = task.tenant_id;
  type = type;
  actor_id = actor;
  from_status = some task.status;
  to_status = some to;
  notes = notes;
}

-- The transaction of a transition: the task's row is patched, and the event recorded.
unfoldable pub move_task : ℕ → (Task → Task) → Event → Tables → Result (Tables × Task)
move_task id patch event t = do
  r ← update (λ (s : Task). s.id) id patch t.tasks
  ok (record t { tasks = r.0; events = create event t.events }, r.1)

abbrev pub to_started : ℕ → Task → Task
to_started now s = record s { status = in_progress; started_at = some now }

unfoldable pub start_in_transaction : ℕ → ℕ → ℕ → Task → Tables → Result (Tables × Task)
start_in_transaction now actor id task t =
    move_task id (to_started now) (transition_event started_event task actor in_progress none) t

-- `start`
unfoldable pub start : Fresh → ℕ → ℕ → ℕ → Tables → Result (Tables × Task)
start fr tenant actor id t = do
  task ← own_task (find_task id tenant t.tasks)
  assert_active_assignment id actor t.assignments
  validate_transition task.status in_progress
  start_in_transaction fr.now actor id task t

-- `Math.max(0, Math.round((completedAt - startedAt) / 60000))`
abbrev pub duration_minutes : ℕ → ℕ → ℕ
duration_minutes completed_at started_at = (completed_at - started_at + 30000) / 60000

abbrev pub to_completed : ℕ → Task → CompleteTask → Task → Task
to_completed now task dto s = record s {
  status = completed;
  completed_at = some now;
  actual_duration_minutes = some (duration_minutes now (or_else task.started_at now));
  scan_session_id = or_option dto.scan_session_id s.scan_session_id;
}

unfoldable pub complete_in_transaction :
    Fresh → ℕ → ℕ → CompleteTask → Task → Tables → Result (Tables × Task)
complete_in_transaction fr actor id dto task t = do
  r ←
      move_task id (to_completed fr.now task dto)
        (transition_event completed_event task actor completed dto.notes)
        (add_many task dto.evidence actor t)
  t' ← if task.is_recurring then spawn_next_occurrence fr r.1 actor r.0 else ok r.0
  ok (t', r.1)

-- `complete`
unfoldable pub complete : Fresh → ℕ → ℕ → ℕ → CompleteTask → Tables → Result (Tables × Task)
complete fr tenant actor id dto t = do
  task ← own_task (find_task id tenant t.tasks)
  assert_active_assignment id actor t.assignments
  validate_transition task.status completed
  ensure_requirements_met task (list_for_task id t.evidence) dto.evidence dto.scan_session_id
  complete_in_transaction fr actor id dto task t

abbrev pub to_rejected : Task → Task
to_rejected s = record s { status = rejected }

unfoldable pub reject_in_transaction : ℕ → ℕ → String → Task → Tables → Result (Tables × Task)
reject_in_transaction actor id reason task t =
    move_task id to_rejected (transition_event rejected_event task actor rejected (some reason)) t

-- `reject`
unfoldable pub reject : ℕ → ℕ → ℕ → String → Tables → Result (Tables × Task)
reject tenant actor id reason t = do
  task ← own_task (find_task id tenant t.tasks)
  assert_active_assignment id actor t.assignments
  validate_transition task.status rejected
  reject_in_transaction actor id reason task t

abbrev pub to_cancelled : Task → Task
to_cancelled s = record s { status = cancelled }

unfoldable pub cancel_in_transaction : ℕ → ℕ → String → Task → Tables → Result (Tables × Task)
cancel_in_transaction actor id reason task t =
    move_task id to_cancelled (transition_event cancelled_event task actor cancelled (some reason))
      t

-- `cancel`: no assignment is asked for
unfoldable pub cancel : ℕ → ℕ → ℕ → String → Tables → Result (Tables × Task)
cancel tenant actor id reason t = do
  task ← own_task (find_task id tenant t.tasks)
  validate_transition task.status cancelled
  cancel_in_transaction actor id reason task t

-- `reassign`: the task is read again to be returned, but not in the transaction, so from the tables
-- as they were.
unfoldable pub reassign : Fresh → ℕ → ℕ → ℕ → ReassignTask → Tables → Result (Tables × Task)
reassign fr tenant actor id dto t = do
  task ← own_task (find_task id tenant t.tasks)
  throw_if (is_terminal task.status) (business business_rule_violation)
  t' ← reassign_task fr task dto actor t
  ok (t', or_else (find_task id tenant t.tasks) task)

-- `addEvidence`
unfoldable pub add_evidence : ℕ → ℕ → ℕ → NewEvidence → Tables → Result Tables
add_evidence tenant actor id dto t = do
  task ← own_task (find_task id tenant t.tasks)
  assert_active_assignment id actor t.assignments
  throw_if (is_terminal task.status) (business business_rule_violation)
  ok (add task dto actor t)
