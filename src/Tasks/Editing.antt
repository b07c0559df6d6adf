-- ===== src/Tasks/Editing.antt =====
-- src/modules/tasks/tasks.service.ts: `create`, `update`, `delete` and `markOverdue`.
pub mod Statuses
use radha_backend.Prelude.{
  ℕ, suc, Option, none, some, List, [], ◌∷◌, or_else, or_option, Result, ok, ◌>>=◌, ◌>>◌, throw_if,
  business, business_rule_violation,
}
use radha_backend.Prelude.Int.{pos}
use radha_backend.Prelude.Table.{create, update}
use radha_backend.Tasks.Types.{
  Task, Event, Tables, Fresh, Status, pending, overdue, EventType, created_event, updated_event,
  overdue_event, primary, observer, CreateTask, UpdateTask,
}
use radha_backend.Tasks.Workflow.{is_terminal}
use radha_backend.Tasks.Repositories.{find_task, find_overdue_candidates, mark_overdue_row}
use radha_backend.Tasks.Assignments.{assign_batch}
use radha_backend.Tasks.Service.{own_task, move_task}

-- The row that `create` inserts.
abbrev pub new_task : Fresh → ℕ → ℕ → CreateTask → Task
new_task fr tenant actor dto = record {
  id = fr.task_id;
  tenant_id = tenant;
  store_id = dto.store_id;
  title = dto.title;
  description = dto.description;
  type = dto.type;
  priority = dto.priority;
  status = pending;
  start_date = dto.start_date;
  due_date = dto.due_date;
  started_at = none;
  completed_at = none;
  estimated_duration_minutes = dto.estimated_duration_minutes;
  actual_duration_minutes = none;
  requires_photo = dto.requires_photo;
  requires_scan = dto.requires_scan;
  minimum_evidence_count = dto.minimum_evidence_count;
  expiry_alert_id = dto.expiry_alert_id;
  product_ids = dto.product_ids;
  scan_session_id = dto.scan_session_id;
  template_id = dto.template_id;
  is_recurring = dto.is_recurring;
  recurrence_pattern = dto.recurrence_pattern;
  parent_task_id = none;
  recurrence_occurrence_count = 0;
  evidence_count = pos 0;
  assignee_count = pos 0;
  overdue_marked_at = none;
  deleted_at = none;
  created_by = actor;
}

abbrev pub task_event : EventType → Task → ℕ → Option Status → Option Status → Event
task_event type task actor from to = record {
  task_id = task.id;
  tenant_id = task.tenant_id;
  type = type;
  actor_id = actor;
  from_status = from;
  to_status = to;
  notes = none;
}

-- `if (dto.observerIds?.length)`
abbrev pub assign_observers : Task → List ℕ → ℕ → Tables → Result Tables
assign_observers task [] actor t = ok t
assign_observers task (u ∷ us) actor t = do r ← assign_batch task (u ∷ us) observer actor t; ok r.0

-- `create`
unfoldable pub create_task : Fresh → ℕ → ℕ → CreateTask → Tables → Result (Tables × Task)
create_task fr tenant actor dto t = do
  let created = new_task fr tenant actor dto
  r ←
      assign_batch created dto.assignee_ids primary actor
        (record t { tasks = create created t.tasks })
  t' ← assign_observers created dto.observer_ids actor r.0
  ok (
    record t' {
      events = create (task_event created_event created actor none (some pending)) t'.events;
    },
    created,
  )

abbrev pub to_edited : UpdateTask → Task → Task
to_edited dto s = record s {
  title = or_else dto.title s.title;
  description = or_option dto.description s.description;
  priority = or_else dto.priority s.priority;
  start_date = or_option dto.start_date s.start_date;
  due_date = or_option dto.due_date s.due_date;
  estimated_duration_minutes =
      or_option dto.estimated_duration_minutes s.estimated_duration_minutes;
  requires_photo = or_else dto.requires_photo s.requires_photo;
  requires_scan = or_else dto.requires_scan s.requires_scan;
  minimum_evidence_count = or_else dto.minimum_evidence_count s.minimum_evidence_count;
  product_ids = or_else dto.product_ids s.product_ids;
}

unfoldable pub update_in_transaction : ℕ → ℕ → UpdateTask → Task → Tables → Result (Tables × Task)
update_in_transaction actor id dto task t =
    move_task id (to_edited dto) (task_event updated_event task actor none none) t

-- `update`
unfoldable pub update_task : ℕ → ℕ → ℕ → UpdateTask → Tables → Result (Tables × Task)
update_task tenant actor id dto t = do
  task ← own_task (find_task id tenant t.tasks)
  throw_if (is_terminal task.status) (business business_rule_violation)
  update_in_transaction actor id dto task t

abbrev pub to_deleted : ℕ → Task → Task
to_deleted now s = record s { deleted_at = some now }

-- `softDelete` of the task's row
unfoldable pub soft_delete_task : ℕ → ℕ → Tables → Result Tables
soft_delete_task now id t = do
  r ← update (λ (s : Task). s.id) id (to_deleted now) t.tasks
  ok (record t { tasks = r.0 })

-- `delete`
unfoldable pub delete_task : ℕ → ℕ → ℕ → Tables → Result Tables
delete_task now tenant id t = do
  task ← own_task (find_task id tenant t.tasks)
  soft_delete_task now id t

-- The transaction for one candidate of `markOverdue`: the event is recorded whether or not the row
-- is still one to be marked.
abbrev pub mark_candidate : ℕ → Task → Tables → Tables
mark_candidate now candidate t = record t {
  tasks = mark_overdue_row candidate.id now t.tasks;
  events =
      create
        (task_event overdue_event candidate candidate.created_by (some candidate.status)
          (some overdue))
        t.events;
}

unfoldable pub mark_each : ℕ → List Task → Tables → Tables × ℕ
mark_each now [] t = (t, 0)
mark_each now (c ∷ cs) t =
    let (t', marked) = mark_each now cs (mark_candidate now c t) in (t', suc marked)

-- `markOverdue`: the tables, and the number of rows that were marked
unfoldable pub mark_overdue : ℕ → Tables → Tables × ℕ
mark_overdue now t = mark_each now (find_overdue_candidates now 500 t.tasks) t
