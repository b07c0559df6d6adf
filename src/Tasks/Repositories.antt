-- ===== src/Tasks/Repositories.antt =====
-- The queries of src/modules/tasks/repositories. The order of a listing is not kept: no modelled
-- operation depends on it.
use radha_backend.Prelude.{
  ℕ, ◌==◌, suc, String, Bool, true, false, ◌&&◌, not, is_some, Option, some, List, [], ◌∷◌, find,
  select, if◌then◌else◌, Result, ltb, leb, any, throw_if, or_else, refused_statement, ◌>>◌, ok,
  zero, none,
}
use radha_backend.Prelude.Int.{ℤ, ◌+ℤ◌}
use radha_backend.Prelude.Table.{update_where, has_id}
use radha_backend.Tasks.Types.{
  Task, Assignment, Evidence, Role, primary, observer, overdue, Status, pending, in_progress,
}

-- `id = … AND tenant_id = … AND deleted_at IS NULL` on `tasks`
abbrev pub task_in_tenant : ℕ → ℕ → Task → Bool
task_in_tenant id tenant t = t.id == id && (t.tenant_id == tenant && not (is_some t.deleted_at))

-- `TasksRepository.findByIdInTenant`
unfoldable pub find_task : ℕ → ℕ → List Task → Option Task
find_task id tenant tasks = find (task_in_tenant id tenant) tasks

abbrev pub add_evidence_count : ℤ → Task → Task
add_evidence_count delta t = record t { evidence_count = t.evidence_count +ℤ delta }

abbrev pub add_assignee_count : ℤ → Task → Task
add_assignee_count delta t = record t { assignee_count = t.assignee_count +ℤ delta }

abbrev pub add_occurrence : Task → Task
add_occurrence t = record t { recurrence_occurrence_count = suc t.recurrence_occurrence_count }

-- `incrementCounter`, of the column and by the delta that the patch holds: a key that no row has
-- changes nothing
abbrev pub increment_counter : ℕ → (Task → Task) → List Task → List Task
increment_counter id patch tasks = update_where (has_id (λ (t : Task). t.id) id) patch tasks

-- `revoked_at IS NULL`, of a task and of one of its assignees
abbrev pub active_for : ℕ → Assignment → Bool
active_for task a = a.task_id == task && not (is_some a.revoked_at)

abbrev pub active_of : ℕ → ℕ → Assignment → Bool
active_of task user a = a.assignee_id == user && active_for task a

-- `findActiveByTaskAndUser`
unfoldable pub find_active_by_task_and_user : ℕ → ℕ → List Assignment → Option Assignment
find_active_by_task_and_user task user rows = find (active_of task user) rows

-- `listActiveForTask`
unfoldable pub list_active_for_task : ℕ → List Assignment → List Assignment
list_active_for_task task rows = select (active_for task) rows

-- A unique index on `task_id` and `assignee_id`, and whether it has a predicate.
pub record UniqueIndex : Type 0 where
  pub is_partial : Bool

-- `uniqueIndex(…).on(t.taskId, t.assigneeId).where(revoked_at IS NULL)` is the only one.
abbrev pub assignee_indexes : List UniqueIndex
assignee_indexes = record { is_partial = true } ∷ []

-- PostgreSQL takes an index for the arbiter of `ON CONFLICT (task_id, assignee_id)`, which names no
-- predicate, if the index has none, and refuses the statement if there is no arbiter.
abbrev pub has_arbiter : List UniqueIndex → Bool
has_arbiter indexes = any (λ (i : UniqueIndex). not i.is_partial) indexes

abbrev pub is_assignee : ℕ → ℕ → Assignment → Bool
is_assignee task user a = a.assignee_id == user && a.task_id == task

-- `insertIfMissing`: the table, and whether a row was inserted. With an index on the two columns alone
-- for an arbiter, any row of the task and the assignee would be in conflict, also a revoked one.
unfoldable pub insert_if_missing : Assignment → List Assignment → Result (List Assignment × Bool)
insert_if_missing a rows =
    throw_if (not (has_arbiter assignee_indexes)) refused_statement
    >> ok
        (if any (is_assignee a.task_id a.assignee_id) rows then (rows, false) else (a ∷ rows, true))

abbrev pub is_primary : Role → Bool
is_primary primary = true
is_primary observer = false

abbrev pub revoked : ℕ → ℕ → Option String → Assignment → Assignment
revoked now actor reason a = record a {
  revoked_at = some now;
  revoked_by = some actor;
  revoked_reason = reason;
}

-- `revokeAllPrimary`: the table, and the number of rows that were revoked
unfoldable pub revoke_all_primary :
    ℕ → ℕ → Option String → ℕ → List Assignment → List Assignment × ℕ
revoke_all_primary now actor reason task [] = ([], 0)
revoke_all_primary now actor reason task (a ∷ rows) =
    let (rows', n) = revoke_all_primary now actor reason task rows in
    if is_primary a.role && active_for task a
    then (revoked now actor reason a ∷ rows', suc n)
    else (a ∷ rows', n)

-- `deleted_at IS NULL`, of a task's evidence
abbrev pub live_for : ℕ → Evidence → Bool
live_for task e = e.task_id == task && not (is_some e.deleted_at)

-- `TaskEvidenceRepository.listForTask`
unfoldable pub list_for_task : ℕ → List Evidence → List Evidence
list_for_task task rows = select (live_for task) rows

abbrev pub evidence_in_tenant : ℕ → ℕ → Evidence → Bool
evidence_in_tenant id tenant e = e.id == id && (e.tenant_id == tenant && not (is_some e.deleted_at))

-- `TaskEvidenceRepository.findByIdInTenant`
unfoldable pub find_evidence : ℕ → ℕ → List Evidence → Option Evidence
find_evidence id tenant rows = find (evidence_in_tenant id tenant) rows

-- `status IN ('pending', 'in_progress')`
abbrev pub is_going : Status → Bool
is_going pending = true
is_going in_progress = true
is_going _ = false

abbrev pub is_past : ℕ → Option ℕ → Bool
is_past now none = false
is_past now (some due) = ltb due now

abbrev pub is_candidate : ℕ → Task → Bool
is_candidate now t = is_going t.status && (is_past now t.due_date && not (is_some t.deleted_at))

-- `ORDER BY due_date ASC`
unfoldable pub insert_by_due : Task → List Task → List Task
insert_by_due t [] = t ∷ []
insert_by_due t (u ∷ us) =
    let rest = insert_by_due t us in
    if leb (or_else t.due_date 0) (or_else u.due_date 0) then t ∷ u ∷ us else u ∷ rest

unfoldable pub sort_by_due : List Task → List Task
sort_by_due [] = []
sort_by_due (t ∷ ts) = insert_by_due t (sort_by_due ts)

abbrev pub first_rows : ℕ → List Task → List Task
first_rows zero ts = []
first_rows (suc n) [] = []
first_rows (suc n) (t ∷ ts) = t ∷ first_rows n ts

-- `findOverdueCandidates`
unfoldable pub find_overdue_candidates : ℕ → ℕ → List Task → List Task
find_overdue_candidates now limit tasks =
    first_rows limit (sort_by_due (select (is_candidate now) tasks))

abbrev pub is_going_row : ℕ → Task → Bool
is_going_row id t = t.id == id && is_going t.status

abbrev pub to_overdue : ℕ → Task → Task
to_overdue now t = record t { status = overdue; overdue_marked_at = some now }

-- `TasksRepository.markOverdue`
unfoldable pub mark_overdue_row : ℕ → ℕ → List Task → List Task
mark_overdue_row id now tasks = update_where (is_going_row id) (to_overdue now) tasks
