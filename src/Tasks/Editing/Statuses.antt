-- ===== src/Tasks/Editing/Statuses.antt =====
-- src/modules/tasks/tasks.service.ts: what `create`, `update`, `delete` and `markOverdue` leave of the
-- statuses of the tasks that are there.
use radha_backend.Prelude.{ℕ, ◌≡◌, ◌≢◌, refl, true, List, [], ◌∷◌, arith, ok, >>=-ok_then}
use radha_backend.Prelude.Table.{update_where, has_id, create, update}
use radha_backend.Prelude.Table.Laws.{IsNew, update-inv}
use radha_backend.Tasks.Types.{
  Task, Tables, Fresh, Status, pending, in_progress, completed, rejected, cancelled, overdue,
  primary, observer, CreateTask, UpdateTask,
}
use radha_backend.Tasks.Workflow.{is_terminal}
use radha_backend.Tasks.Repositories.{is_going, is_going_row, to_overdue, mark_overdue_row}
use radha_backend.Tasks.Assignments.{assign_batch}
use radha_backend.Tasks.Service.{move_task}
use radha_backend.Tasks.Editing.{
  new_task, assign_observers, create_task, to_edited, to_deleted, soft_delete_task, mark_candidate,
  update_in_transaction,
}
use radha_backend.Tasks.Service.Terminal.{
  key, Settled, Settled-trans, Kept→Settled, Kept, Kept-refl, Settled-create, Settled-update_where,
}
use radha_backend.Tasks.Service.Steps.{assign_batch-Kept}

assign_observers-Kept :
    (task : Task) (ids : List ℕ) (actor : ℕ) (t : Tables) {t' : Tables}
    → assign_observers task ids actor t ≡ ok t'
    → Kept t.tasks t'.tasks
assign_observers-Kept task [] actor t {t'} e =
    let same : t' ≡ t = ground (arith, e) in rw same (Kept-refl t.tasks)
assign_observers-Kept task (u ∷ us) actor t {t'} e =
    >>=-ok_then (assign_batch task (u ∷ us) observer actor t) _ e λ r done e1.
      let same : t' ≡ r.0 = ground (arith, e1) in
      rw same (assign_batch-Kept task (u ∷ us) observer actor t done)

pub create_task-Settled :
    (fr : Fresh) (tenant actor : ℕ) (dto : CreateTask) (t : Tables) {t' : Tables} {s : Task}
    → IsNew key fr.task_id t.tasks
    → create_task fr tenant actor dto t ≡ ok (t', s)
    → Settled t.tasks t'.tasks
unfolding create_task
create_task-Settled fr tenant actor dto t {t'} new e =
    let row = new_task fr tenant actor dto in
    let t1 : Tables = record t { tasks = create row t.tasks } in
    >>=-ok_then (assign_batch row dto.assignee_ids primary actor t1) _ e λ r assigned e1.
      >>=-ok_then (assign_observers row dto.observer_ids actor r.0) _ e1 λ t2 observed e2.
        let rows : t'.tasks ≡ t2.tasks = ground (arith, e2) in
        rw rows (
          Settled-trans t.tasks r.0.tasks t2.tasks
            (Settled-trans t.tasks (row ∷ t.tasks) r.0.tasks (Settled-create row t.tasks new) (
              Kept→Settled (row ∷ t.tasks) r.0.tasks
                (assign_batch-Kept row dto.assignee_ids primary actor t1 assigned)))
            (Kept→Settled r.0.tasks t2.tasks
              (assign_observers-Kept row dto.observer_ids actor r.0 observed)))

-- A patch of a row by its key that keeps the status.
patched-Settled :
    (id : ℕ) (f : Task → Task) (rows : List Task)
    → ((r : Task) → (f r).id ≡ r.id)
    → ((r : Task) → (f r).status ≡ r.status)
    → Settled rows (update_where (has_id key id) f rows)
patched-Settled id f rows keep same =
    Settled-update_where (has_id key id) f rows keep (λ r found terminal hit. same r)

pub update_in_transaction-Settled :
    (actor id : ℕ) (dto : UpdateTask) (task : Task) (t : Tables) {t' : Tables} {s : Task}
    → update_in_transaction actor id dto task t ≡ ok (t', s)
    → Settled t.tasks t'.tasks
unfolding update_in_transaction move_task
update_in_transaction-Settled actor id dto task t {t'} {s} e =
    >>=-ok_then (update key id (to_edited dto) t.tasks) _ e λ r done rest.
      let (after, _) = update-inv key id (to_edited dto) t.tasks (λ x. refl) done in
      let rows : t'.tasks ≡ update_where (has_id key id) (to_edited dto) t.tasks =
        ground (arith, rest, after) in
      rw rows (patched-Settled id (to_edited dto) t.tasks (λ x. refl) (λ x. refl))

pub soft_delete_task-Settled :
    (now id : ℕ) (t : Tables) {t' : Tables}
    → soft_delete_task now id t ≡ ok t'
    → Settled t.tasks t'.tasks
unfolding soft_delete_task
soft_delete_task-Settled now id t {t'} e =
    >>=-ok_then (update key id (to_deleted now) t.tasks) _ e λ r done rest.
      let (after, _) = update-inv key id (to_deleted now) t.tasks (λ x. refl) done in
      let rows : t'.tasks ≡ update_where (has_id key id) (to_deleted now) t.tasks =
        ground (arith, rest, after) in
      rw rows (patched-Settled id (to_deleted now) t.tasks (λ x. refl) (λ x. refl))

going-open : (s : Status) → is_going s ≡ true → is_terminal s ≢ true
unfolding is_terminal
going-open pending h k = cc
going-open in_progress h k = cc
going-open completed h k = cc
going-open rejected h k = cc
going-open cancelled h k = cc
going-open overdue h k = cc

-- The sweep tests the status again when it writes, so it may meet a task that has been settled since
-- it was listed.
pub mark_candidate-Settled :
    (now : ℕ) (candidate : Task) (t : Tables)
    → Settled t.tasks (mark_candidate now candidate t).tasks
unfolding mark_overdue_row
mark_candidate-Settled now candidate t =
    Settled-update_where (is_going_row candidate.id) (to_overdue now) t.tasks (λ r. refl)
      λ r found terminal hit. absurd (going-open r.status (ground (arith, hit)) terminal)
