-- ===== src/Tasks/Service/Tests.antt =====
-- src/modules/tasks/tasks.service.ts and services/task-workflow.service.ts: runs of a recurring
-- task that asks for a photo, and the theorems at those inputs.
use radha_backend.Prelude.{
  ◌⊎◌, ◌≢◌, business, task_already_completed, ℕ, ◌+◌, ◌≡◌, ◌↔◌, refl, arith, true, false, none,
  some, [], ◌∷◌, map, Result, ok, err,
}
use radha_backend.Prelude.Int.{pos, ◌+ℤ◌, ◌-ℤ◌}
use radha_backend.Prelude.Table.{update}
use radha_backend.Dates.{ms_per_day}
use radha_backend.Tasks.Recurrence.{
  Pattern, daily, is_recurrence_pattern, has_remaining_occurrences, calculate_next_due_date,
  next_due,
}
use radha_backend.Tasks.Types.{
  Task, Assignment, Tables, Fresh, pending, in_progress, completed, cancelled, overdue, primary,
  photo, medium, shelf_audit, NewEvidence, CompleteTask,
}
use radha_backend.Tasks.Workflow.{validate_transition, can_transition_to, is_terminal}
use radha_backend.Tasks.Workflow.Laws.{LeadsTo, validate_transition_iff}
use radha_backend.Tasks.Repositories.{
  find_task, find_active_by_task_and_user, list_active_for_task, insert_if_missing, list_for_task,
}
use radha_backend.Tasks.Evidence.{
  add, add_many, ensure_requirements_met, check_items, item_of_evidence,
}
use radha_backend.Tasks.Assignments.{assert_active_assignment}
use radha_backend.Tasks.Recurring.{spawn, spawn_next_occurrence, copy_assignments}
use radha_backend.Tasks.Service.{
  move_task, start, complete, start_in_transaction, complete_in_transaction, cancel_in_transaction,
  cancel,
}
use radha_backend.Tasks.Service.Terminal.{Settled}
use radha_backend.Tasks.Service.Recurs.{complete-never_recurs}
use radha_backend.Tasks.Service.Overwriting.{HasStatus, cancel_in_transaction-overwrites}
use radha_backend.Tasks.Service.Settling.{completing, Step-Settled}
use radha_backend.Tasks.Service.Completion.{Meets, complete-Meets}

abbrev every_day : Pattern
every_day = record {
  type = daily;
  interval = 1;
  days_of_week = none;
  day_of_month = none;
  end_date = none;
  occurrences = some 5;
}

abbrev shelf : Task
shelf = record {
  id = 1;
  tenant_id = 7;
  store_id = 20;
  title = "Shelf";
  description = none;
  type = shelf_audit;
  priority = medium;
  status = pending;
  start_date = none;
  due_date = some 1000;
  started_at = none;
  completed_at = none;
  estimated_duration_minutes = none;
  actual_duration_minutes = none;
  requires_photo = true;
  requires_scan = false;
  minimum_evidence_count = 1;
  expiry_alert_id = none;
  product_ids = [];
  scan_session_id = none;
  template_id = none;
  is_recurring = false;
  recurrence_pattern = none;
  parent_task_id = none;
  recurrence_occurrence_count = 0;
  evidence_count = pos 0;
  assignee_count = pos 1;
  overdue_marked_at = none;
  deleted_at = none;
  created_by = 3;
}

-- The same, every day.
abbrev daily_shelf : Task
daily_shelf = record shelf { is_recurring = true; recurrence_pattern = some every_day }

abbrev assigned : Assignment
assigned = record {
  task_id = 1;
  assignee_id = 3;
  tenant_id = 7;
  role = primary;
  assigned_by = 3;
  revoked_at = none;
  revoked_by = none;
  revoked_reason = none;
}

abbrev planned : Tables
planned = record { tasks = shelf ∷ []; assignments = assigned ∷ []; evidence = []; events = [] }

-- Where it recurs, and is being done.
abbrev recurring : Tables
recurring = record planned { tasks = record daily_shelf { status = in_progress } ∷ [] }

abbrev clock : ℕ → Fresh
clock n = record { now = n; task_id = 2 }

abbrev picture : NewEvidence
picture = record { id = 1; type = photo; media_id = some 9; scan_session_id = none; note = none }

abbrev done : CompleteTask
done = record { notes = none; scan_session_id = none; evidence = picture ∷ [] }

abbrev tables_of : Tables → Result (Tables × Task) → Tables
tables_of t (ok r) = r.0
tables_of t (err e) = t

-- The definitions that a run computes with.
runs : Unit {0}
unfolding start start_in_transaction complete complete_in_transaction find_task
    assert_active_assignment find_active_by_task_and_user validate_transition move_task
    ensure_requirements_met check_items list_for_task add_many add update spawn_next_occurrence
    spawn copy_assignments list_active_for_task insert_if_missing is_recurrence_pattern
    has_remaining_occurrences calculate_next_due_date next_due ◌+ℤ◌ ◌-ℤ◌
runs = tt

abbrev going_on : Tables
going_on = tables_of planned (start (clock 500) 7 3 1 planned)

abbrev finished : Tables
finished = tables_of planned (complete (clock 60500) 7 3 1 done going_on)

abbrev task_of : Result (Tables × Task) → Task
task_of (ok r) = r.1
task_of (err e) = shelf

abbrev closed : Task
closed = task_of (complete (clock 60500) 7 3 1 done going_on)

-- The completion closes the task, after a minute.
closed_in_time :
    (map (λ (t : Task). t.status) finished.tasks ≡ completed ∷ [])
    × (map (λ (t : Task). t.actual_duration_minutes) finished.tasks ≡ some 1 ∷ [])
unfolding runs
closed_in_time = (refl, refl)

validate_transition_iff_example :
    ((validate_transition overdue completed ≡ ok tt) ↔ LeadsTo completed overdue)
    × ((can_transition_to overdue completed ≡ true) ↔ LeadsTo completed overdue)
    × ((validate_transition overdue completed ≡ err (business task_already_completed))
        ↔ ((overdue ≡ completed) × (completed ≢ completed)))
    × ((is_terminal overdue ≡ true) ↔ ((overdue ≡ completed) ⊎ (overdue ≡ cancelled)))
validate_transition_iff_example = validate_transition_iff overdue completed

Step-Settled_example : Settled going_on.tasks finished.tasks
unfolding runs
Step-Settled_example =
    Step-Settled {fr = clock 60500} {t = going_on} {t' = finished} (tt, tt) (omega arith, tt)
      (completing 7 3 1 done refl)

cancel_in_transaction-overwrites_example :
    (cancel 7 4 1 "late" going_on
      ≡ cancel_in_transaction 4 1 "late" (task_of (start (clock 500) 7 3 1 planned)) going_on)
    × HasStatus 1 completed finished
    × ((t : Tables) × (s : Task) × (cancel_in_transaction 4 1 "late"
            (task_of (start (clock 500) 7 3 1 planned))
            finished
          ≡ ok (t, s))
        × HasStatus 1 cancelled t)
unfolding runs
cancel_in_transaction-overwrites_example =
    cancel_in_transaction-overwrites (clock 60500) 7 3 4 1 done "late"
      (task_of (start (clock 500) 7 3 1 planned)) going_on (omega arith, tt) refl refl refl

complete-Meets_example :
    (task : Task) × (find_task 1 7 going_on.tasks ≡ some task)
    × (closed.status ≡ completed)
    × (closed.completed_at ≡ some 60500)
    × Meets task (map item_of_evidence (list_for_task 1 finished.evidence)) none
unfolding runs
complete-Meets_example = complete-Meets (clock 60500) 7 3 1 done going_on (tt, tt) refl

complete-never_recurs_example : complete (clock 60500) 7 3 1 done recurring ≢ ok (finished, closed)
unfolding runs
complete-never_recurs_example =
    complete-never_recurs (clock 60500) 7 3 1 done recurring {due = 1000 + ms_per_day}
      (finished, closed) (tt, tt) refl refl refl
