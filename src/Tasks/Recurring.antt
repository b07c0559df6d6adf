-- ===== src/Tasks/Recurring.antt =====
-- src/modules/tasks/services/recurring-tasks.service.ts: the next occurrence of a recurring task.
-- The caller drops the task that `spawnNextOccurrence` returns, so the tables are its only result.
use radha_backend.Prelude.{
  ℕ, false, not, Option, none, some, List, [], ◌∷◌, suc, or_else, or_option, if◌then◌else◌, Result,
  ok, ◌>>=◌,
}
use radha_backend.Prelude.Int.{pos}
use radha_backend.Prelude.Table.{create}
use radha_backend.Tasks.Recurrence.{
  Pattern, is_recurrence_pattern, has_remaining_occurrences, calculate_next_due_date,
}
use radha_backend.Tasks.Types.{Task, Assignment, Event, Tables, Fresh, pending, recurrence_spawned}
use radha_backend.Tasks.Repositories.{
  add_occurrence, increment_counter, insert_if_missing, list_active_for_task,
}
use radha_backend.Tasks.Assignments.{new_assignment, count_assignees}

-- The row that `spawnNextOccurrence` inserts.
abbrev pub occurrence : Fresh → Task → ℕ → ℕ → Task
occurrence fr parent actor next_due = record {
  id = fr.task_id;
  tenant_id = parent.tenant_id;
  store_id = parent.store_id;
  title = parent.title;
  description = parent.description;
  type = parent.type;
  priority = parent.priority;
  status = pending;
  start_date = none;
  due_date = some next_due;
  started_at = none;
  completed_at = none;
  estimated_duration_minutes = parent.estimated_duration_minutes;
  actual_duration_minutes = none;
  requires_photo = parent.requires_photo;
  requires_scan = parent.requires_scan;
  minimum_evidence_count = parent.minimum_evidence_count;
  expiry_alert_id = none;
  product_ids = parent.product_ids;
  scan_session_id = none;
  template_id = parent.template_id;
  is_recurring = false;
  recurrence_pattern = none;
  parent_task_id = some parent.id;
  recurrence_occurrence_count = 0;
  evidence_count = pos 0;
  assignee_count = pos 0;
  overdue_marked_at = none;
  deleted_at = none;
  created_by = actor;
}

-- The active assignments of the parent, copied to the child: the table, and the number of rows.
unfoldable pub copy_assignments :
    Task → ℕ → List Assignment → List Assignment → Result (List Assignment × ℕ)
copy_assignments child actor [] rows = ok (rows, 0)
copy_assignments child actor (a ∷ rest) rows = do
  first ← insert_if_missing (new_assignment child a.role actor a.assignee_id) rows
  others ← copy_assignments child actor rest first.0
  ok (others.0, if first.1 then suc others.1 else others.1)

abbrev pub spawned_event : Task → ℕ → Event
spawned_event child actor = record {
  task_id = child.id;
  tenant_id = child.tenant_id;
  type = recurrence_spawned;
  actor_id = actor;
  from_status = none;
  to_status = none;
  notes = none;
}

-- What the spawn writes, once the assignments are copied.
abbrev pub spawned : Task → Task → ℕ → List Assignment → ℕ → Tables → Tables
spawned parent child actor rows copied t = record t {
  tasks =
      increment_counter parent.id add_occurrence
        (count_assignees copied child.id (pos copied) (create child t.tasks));
  assignments = rows;
  events = create (spawned_event child actor) t.events;
}

-- What follows the computation of the due date.
unfoldable pub spawn : Fresh → Task → ℕ → Option ℕ → Tables → Result Tables
spawn fr parent actor none t = ok t
spawn fr parent actor (some next_due) t = do
  let child = occurrence fr parent actor next_due
  copied ← copy_assignments child actor (list_active_for_task parent.id t.assignments) t.assignments
  ok (spawned parent child actor copied.0 copied.1 t)

-- The due date of the next occurrence, where the pattern is well formed and its quota not used up.
abbrev pub next_occurrence : Fresh → Task → Option Pattern → Option ℕ
next_occurrence fr parent none = none
next_occurrence fr parent (some p) =
    if not (is_recurrence_pattern p)
    then none
    else if not (has_remaining_occurrences p parent.recurrence_occurrence_count)
    then none
    else calculate_next_due_date (or_else (or_option parent.due_date parent.completed_at) fr.now) p
        parent.recurrence_occurrence_count

-- `spawnNextOccurrence`
unfoldable pub spawn_next_occurrence : Fresh → Task → ℕ → Tables → Result Tables
spawn_next_occurrence fr parent actor t =
    if not parent.is_recurring
    then ok t
    else spawn fr parent actor (next_occurrence fr parent parent.recurrence_pattern) t
