-- ===== src/Tasks/Assignments.antt =====
-- src/modules/tasks/services/task-assignment.service.ts
use radha_backend.Prelude.{
  ℕ, ltb, String, not, is_some, Option, none, List, [], ◌∷◌, suc, if◌then◌else◌, Result, throw_if,
  forbidden, Bool, ok, false, ◌>>=◌, true,
}
use radha_backend.Prelude.Int.{ℤ, pos, neg}
use radha_backend.Prelude.Table.{create}
use radha_backend.Tasks.Recurrence.{unique}
use radha_backend.Tasks.Types.{
  Task, Assignment, Event, Tables, Fresh, Role, ReassignTask, EventType, assigned_event,
  reassigned_event,
}
use radha_backend.Tasks.Repositories.{
  add_assignee_count, increment_counter, find_active_by_task_and_user, insert_if_missing,
  revoke_all_primary,
}

-- `assertActiveAssignment`
unfoldable pub assert_active_assignment : ℕ → ℕ → List Assignment → Result (Unit {0})
assert_active_assignment task user rows =
    throw_if (not (is_some (find_active_by_task_and_user task user rows))) forbidden

abbrev pub new_assignment : Task → Role → ℕ → ℕ → Assignment
new_assignment task role actor assignee = record {
  task_id = task.id;
  assignee_id = assignee;
  tenant_id = task.tenant_id;
  role = role;
  assigned_by = actor;
  revoked_at = none;
  revoked_by = none;
  revoked_reason = none;
}

abbrev pub assignment_event : EventType → Task → ℕ → Option String → Event
assignment_event type task actor notes = record {
  task_id = task.id;
  tenant_id = task.tenant_id;
  type = type;
  actor_id = actor;
  from_status = none;
  to_status = none;
  notes = notes;
}

abbrev pub assigned_to : Task → ℕ → List Assignment × Bool → Tables → Tables
assigned_to task actor (rows, false) t = t
assigned_to task actor (rows, true) t = record t {
  assignments = rows;
  events = create (assignment_event assigned_event task actor none) t.events;
}

-- The loop over the assignees: the tables, and the number of rows that were inserted.
unfoldable pub assign_each : Task → Role → ℕ → List ℕ → Tables → Result (Tables × ℕ)
assign_each task role actor [] t = ok (t, 0)
assign_each task role actor (assignee ∷ rest) t = do
  inserted ← insert_if_missing (new_assignment task role actor assignee) t.assignments
  others ← assign_each task role actor rest (assigned_to task actor inserted t)
  ok (others.0, if inserted.1 then suc others.1 else others.1)

-- `if (n > 0) incrementCounter(…)`
abbrev pub count_assignees : ℕ → ℕ → ℤ → List Task → List Task
count_assignees n id delta tasks =
    if ltb 0 n then increment_counter id (add_assignee_count delta) tasks else tasks

-- `assignBatch`: the tables, and the number of rows that were inserted
unfoldable pub assign_batch : Task → List ℕ → Role → ℕ → Tables → Result (Tables × ℕ)
assign_batch task assignees role actor t = do
  r ← assign_each task role actor (unique assignees) t
  ok (record r.0 { tasks = count_assignees r.1 task.id (pos r.1) r.0.tasks }, r.1)

-- The revocation, where the input asks to replace the assignees.
abbrev pub revoke_primaries : Fresh → Task → ReassignTask → ℕ → Tables → Tables
revoke_primaries fr task dto actor t =
    let (rows, n) = revoke_all_primary fr.now actor dto.reason task.id t.assignments in
    if dto.replace
    then record t { assignments = rows; tasks = count_assignees n task.id (neg (pos n)) t.tasks }
    else t

-- `reassign` of the assignment service
unfoldable pub reassign_task : Fresh → Task → ReassignTask → ℕ → Tables → Result Tables
reassign_task fr task dto actor t = do
  r ← assign_batch task dto.assignee_ids dto.role actor (revoke_primaries fr task dto actor t)
  ok (record r.0 {
    events = create (assignment_event reassigned_event task actor dto.reason) r.0.events;
  })
