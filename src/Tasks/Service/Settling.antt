-- ===== src/Tasks/Service/Settling.antt =====
-- src/modules/tasks/tasks.service.ts: completion, which may spawn a task, and all the operations
-- together.
use radha_backend.Prelude.{
  ℕ, inl, inr, String, ◌≡◌, ◌≢◌, refl, sym, subst, ◌∙◌, Bool, List, [], ◌∷◌, arith, ok, >>=-ok_then,
  if◌then◌else◌,
}
use radha_backend.Prelude.Int.{pos}
use radha_backend.Prelude.Table.{update_where, has_id, create, update}
use radha_backend.Prelude.Table.Laws.{Distinct, IsNew, All-update_where, update-inv}
use radha_backend.Tasks.Types.{
  Task, Event, Evidence, CreateTask, UpdateTask, Tables, Fresh, completed, NewEvidence,
  CompleteTask, ReassignTask, completed_event,
}
use radha_backend.Tasks.Workflow.{validate_transition}
use radha_backend.Tasks.Repositories.{find_task, list_for_task, add_evidence_count, add_occurrence}
use radha_backend.Tasks.Evidence.{
  add, add_many, soft_delete_evidence, uncount_evidence, log_removal, ensure_requirements_met,
}
use radha_backend.Tasks.Assignments.{assert_active_assignment, count_assignees, reassign_task}
use radha_backend.Tasks.Recurring.{spawn_next_occurrence, occurrence}
use radha_backend.Tasks.Service.{
  own_task, move_task, start, complete, complete_in_transaction, reject, cancel, transition_event,
  to_completed,
}
use radha_backend.Tasks.Service.Terminal.{
  key, Settled, Settled-refl, Settled-trans, Kept→Settled, Kept-find, Settled-create,
  Settled-increment_counter, Settled-move_task, validate_transition-open, find_task-id,
}
use radha_backend.Tasks.Service.Spawning.{Spawned, finish-Spawned}
use radha_backend.Tasks.Editing.{
  update_in_transaction, create_task, soft_delete_task, mark_candidate,
}
use radha_backend.Tasks.Editing.Statuses.{
  create_task-Settled, update_in_transaction-Settled, soft_delete_task-Settled,
  mark_candidate-Settled,
}
use radha_backend.Tasks.Service.Steps.{
  own_task-own, add_many-Kept, count_assignees-Kept, start-Settled, reject-Settled, cancel-Settled,
  reassign_task-Settled, add-Settled, soft_delete_evidence-tasks, uncount_evidence-Settled,
  log_removal-tasks,
}

IsNew-update_where :
    (id : ℕ) (p : Task → Bool) (f : Task → Task) (rows : List Task)
    → ((r : Task) → (f r).id ≡ r.id)
    → IsNew key id rows
    → IsNew key id (update_where p f rows)
IsNew-update_where id p f rows keep new =
    All-update_where (λ s. key s ≢ id) p f rows (λ r ne same. ne (sym (keep r) ∙ same)) new

pub add_many-IsNew :
    (id : ℕ) (task : Task) (items : List NewEvidence) (actor : ℕ) (t : Tables)
    → IsNew key id t.tasks
    → IsNew key id (add_many task items actor t).tasks
unfolding add_many add
add_many-IsNew id task [] actor t new = new
add_many-IsNew id task (dto ∷ items) actor t new =
    add_many-IsNew id task items actor (add task dto actor t) (
      IsNew-update_where id (has_id key task.id) (add_evidence_count (pos 1)) t.tasks (λ r. refl)
        new)

pub move_task-IsNew :
    (new_id id : ℕ) (f : Task → Task) (event : Event) (t : Tables) {t' : Tables} {s : Task}
    → ((r : Task) → (f r).id ≡ r.id)
    → move_task id f event t ≡ ok (t', s)
    → IsNew key new_id t.tasks
    → IsNew key new_id t'.tasks
unfolding move_task
move_task-IsNew new_id id f event t {t'} {s} keep e new =
    >>=-ok_then (update key id f t.tasks) _ e λ r done rest.
      let (after, _) = update-inv key id f t.tasks keep done in
      let rows : t'.tasks ≡ update_where (has_id key id) f t.tasks = ground (arith, rest, after) in
      subst (IsNew key new_id) (sym rows)
        (IsNew-update_where new_id (has_id key id) f t.tasks keep new)

pub Spawned-Settled :
    (fr : Fresh) (parent : Task) (actor : ℕ) (t : Tables) {t' : Tables}
    → IsNew key fr.task_id t.tasks
    → Spawned fr parent actor t t'
    → Settled t.tasks t'.tasks
Spawned-Settled fr parent actor t new (inl same) = rw same (Settled-refl t.tasks)
Spawned-Settled fr parent actor t new (inr (due, rows, copied, e)) =
    let child = occurrence fr parent actor due in
    let counted = count_assignees copied child.id (pos copied) (create child t.tasks) in
    rw e (
      Settled-trans t.tasks counted _
        (Settled-trans t.tasks (create child t.tasks) counted (Settled-create child t.tasks new) (
          Kept→Settled (create child t.tasks) counted
            (count_assignees-Kept copied child.id (pos copied) (create child t.tasks))))
        (Settled-increment_counter parent.id add_occurrence counted (λ r. refl) (λ r. refl)))

complete-Settled :
    (fr : Fresh) (tenant actor id : ℕ) (dto : CompleteTask) (t : Tables) {t' : Tables} {s : Task}
    → Distinct key t.tasks
    → IsNew key fr.task_id t.tasks
    → complete fr tenant actor id dto t ≡ ok (t', s)
    → Settled t.tasks t'.tasks
unfolding complete complete_in_transaction
complete-Settled fr tenant actor id dto t {t'} distinct new e =
    >>=-ok_then (own_task (find_task id tenant t.tasks)) _ e λ task own e1.
      >>=-ok_then (assert_active_assignment id actor t.assignments) _ e1 λ u assigned e2.
        >>=-ok_then (validate_transition task.status completed) _ e2 λ v valid e3.
          >>=-ok_then
            (ensure_requirements_met task (list_for_task id t.evidence) dto.evidence
              dto.scan_session_id)
            _ e3
            λ w met e4.
              let t1 = add_many task dto.evidence actor t in
              let event = transition_event completed_event task actor completed dto.notes in
              >>=-ok_then (move_task id (to_completed fr.now task dto) event t1) _ e4 λ r moved e5.
                let kept = add_many-Kept task dto.evidence actor t in
                let (_, found) = find_task-id id tenant t.tasks distinct (own_task-own _ own) in
                let (b, here, same) = Kept-find id t.tasks t1.tasks kept found in
                let going = validate_transition-open b.status completed (
                  subst (λ status. validate_transition status completed ≡ ok tt) (sym same)
                    valid) in
                let before =
                  Settled-trans t.tasks t1.tasks r.0.tasks (Kept→Settled t.tasks t1.tasks kept) (
                    Settled-move_task id (to_completed fr.now task dto) event t1 (λ x. refl) here
                      going moved) in
                let still_new =
                  move_task-IsNew fr.task_id id (to_completed fr.now task dto) event t1 (λ x. refl)
                    moved (add_many-IsNew fr.task_id task dto.evidence actor t new) in
                >>=-ok_then
                  (if task.is_recurring then spawn_next_occurrence fr r.1 actor r.0 else ok r.0) _
                  e5
                  λ u finished e6.
                    let last : t' ≡ u = ground (arith, e6) in
                    rw last (
                      Settled-trans t.tasks r.0.tasks u.tasks before (
                        Spawned-Settled fr r.1 actor r.0 still_new
                          (finish-Spawned fr task.is_recurring r.1 actor r.0 finished)))

-- One operation that succeeds, at the time and with the new key that `fr` gives. Starting,
-- completing, rejecting and cancelling are whole: no other session writes between the read and the
-- transaction. The others are what is committed at once, whatever their session read before.
pub data Step (fr : Fresh) : Tables → Tables → Type 0 where
  starting :
      (tenant actor id : ℕ) {t t' : Tables} {s : Task}
      → start fr tenant actor id t ≡ ok (t', s)
      → Step fr t t'
  completing :
      (tenant actor id : ℕ) (dto : CompleteTask) {t t' : Tables} {s : Task}
      → complete fr tenant actor id dto t ≡ ok (t', s)
      → Step fr t t'
  rejecting :
      (tenant actor id : ℕ) (reason : String) {t t' : Tables} {s : Task}
      → reject tenant actor id reason t ≡ ok (t', s)
      → Step fr t t'
  cancelling :
      (tenant actor id : ℕ) (reason : String) {t t' : Tables} {s : Task}
      → cancel tenant actor id reason t ≡ ok (t', s)
      → Step fr t t'
  creating :
      (tenant actor : ℕ) (dto : CreateTask) {t t' : Tables} {s : Task}
      → create_task fr tenant actor dto t ≡ ok (t', s)
      → Step fr t t'
  editing :
      (actor id : ℕ) (dto : UpdateTask) (task : Task) {t t' : Tables} {s : Task}
      → update_in_transaction actor id dto task t ≡ ok (t', s)
      → Step fr t t'
  deleting : (id : ℕ) {t t' : Tables} → soft_delete_task fr.now id t ≡ ok t' → Step fr t t'
  marking_overdue :
      (candidate : Task) {t t' : Tables} → t' ≡ mark_candidate fr.now candidate t → Step fr t t'
  reassigning :
      (task : Task) (dto : ReassignTask) (actor : ℕ) {t t' : Tables}
      → reassign_task fr task dto actor t ≡ ok t'
      → Step fr t t'
  adding :
      (task : Task) (dto : NewEvidence) (actor : ℕ) {t t' : Tables}
      → t' ≡ add task dto actor t
      → Step fr t t'
  removing : (id : ℕ) {t t' : Tables} → soft_delete_evidence fr id t ≡ ok t' → Step fr t t'
  uncounting : (row : Evidence) {t t' : Tables} → t' ≡ uncount_evidence row t → Step fr t t'
  logging_removal :
      (row : Evidence) (actor : ℕ) {t t' : Tables} → t' ≡ log_removal row actor t → Step fr t t'

-- Where the tasks' keys are distinct and the key for a task that may be inserted is new, no operation
-- on tasks that succeeds changes the status of a task that is completed or cancelled, and none takes
-- its row away: neither a start, a completion, a rejection or a cancellation, if no other session
-- writes between its read and its transaction, nor, whatever was read before, a creation, an edit, a
-- deletion, a pass of the overdue sweep, a reassignment, or one of the writes that add or remove
-- evidence.
pub Step-Settled :
    {fr : Fresh} {t t' : Tables}
    → Distinct key t.tasks
    → IsNew key fr.task_id t.tasks
    → Step fr t t'
    → Settled t.tasks t'.tasks
Step-Settled {fr} {t} distinct new (starting tenant actor id e) =
    start-Settled fr tenant actor id t distinct e
Step-Settled {fr} {t} distinct new (completing tenant actor id dto e) =
    complete-Settled fr tenant actor id dto t distinct new e
Step-Settled {fr} {t} distinct new (rejecting tenant actor id reason e) =
    reject-Settled tenant actor id reason t distinct e
Step-Settled {fr} {t} distinct new (cancelling tenant actor id reason e) =
    cancel-Settled tenant actor id reason t distinct e
Step-Settled {fr} {t} distinct new (creating tenant actor dto e) =
    create_task-Settled fr tenant actor dto t new e
Step-Settled {fr} {t} distinct new (editing actor id dto task e) =
    update_in_transaction-Settled actor id dto task t e
Step-Settled {fr} {t} distinct new (deleting id e) = soft_delete_task-Settled fr.now id t e
Step-Settled {fr} {t} distinct new (marking_overdue candidate e) =
    rw e (mark_candidate-Settled fr.now candidate t)
Step-Settled {fr} {t} distinct new (reassigning task dto actor e) =
    reassign_task-Settled fr task dto actor t e
Step-Settled {fr} {t} distinct new (adding task dto actor e) = rw e (add-Settled task dto actor t)
Step-Settled {fr} {t} distinct new (removing id e) =
    rw (soft_delete_evidence-tasks fr id t e) (Settled-refl t.tasks)
Step-Settled {fr} {t} distinct new (uncounting row e) = rw e (uncount_evidence-Settled row t)
Step-Settled {fr} {t} distinct new (logging_removal row actor e) =
    rw (e, log_removal-tasks row actor t) (Settled-refl t.tasks)
