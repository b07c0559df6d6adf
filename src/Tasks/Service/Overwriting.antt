-- ===== src/Tasks/Service/Overwriting.antt =====
-- src/modules/tasks/tasks.service.ts: a transition whose session has read the task before another
-- session settled it.
use radha_backend.Prelude.{
  ℕ, String, ◌≡◌, refl, ap, ◌∙◌, true, some, arith, ok, >>=-ok_then, if◌then◌else◌,
}
use radha_backend.Prelude.Table.{create, update_where, has_id, find_by_id, update}
use radha_backend.Prelude.Table.Laws.{
  IsNew, update-inv, update-ok, find-update_where, map_option, patch, find-holds,
}
use radha_backend.Tasks.Types.{
  Task, Event, Tables, Fresh, Status, completed, cancelled, cancelled_event, completed_event,
  CompleteTask,
}
use radha_backend.Tasks.Workflow.{validate_transition, is_terminal}
use radha_backend.Tasks.Repositories.{find_task, list_for_task}
use radha_backend.Tasks.Evidence.{add_many, ensure_requirements_met}
use radha_backend.Tasks.Assignments.{assert_active_assignment}
use radha_backend.Tasks.Recurring.{spawn_next_occurrence}
use radha_backend.Tasks.Service.{
  own_task, move_task, complete, complete_in_transaction, cancel_in_transaction, transition_event,
  to_completed, to_cancelled, cancel,
}
use radha_backend.Tasks.Service.Terminal.{key, Settled-find}
use radha_backend.Tasks.Service.Spawning.{finish-Spawned}
use radha_backend.Tasks.Service.Settling.{move_task-IsNew, add_many-IsNew, Spawned-Settled}

-- The row that a transition has written.
abbrev pub HasStatus : ℕ → Status → Tables → Type 0
HasStatus id status t = (b : Task) × (find_by_id key id t.tasks ≡ some b) × (b.status ≡ status)

move_task-HasStatus :
    (id : ℕ) (f : Task → Task) (event : Event) (t : Tables) (status : Status) {t' : Tables}
    {s : Task}
    → ((r : Task) → (f r).id ≡ r.id)
    → ((r : Task) → (f r).status ≡ status)
    → move_task id f event t ≡ ok (t', s)
    → HasStatus id status t'
unfolding move_task
move_task-HasStatus id f event t status {t'} {s} keep written e =
    >>=-ok_then (update key id f t.tasks) _ e λ r done rest.
      let (after, (b, here, patched)) = update-inv key id f t.tasks keep done in
      let rows : t'.tasks ≡ update_where (has_id key id) f t.tasks = ground (arith, rest, after) in
      let its_key = find-holds (has_id key id) t.tasks here in
      (
        f b,
        rw rows (
            find-update_where (has_id key id) (has_id key id) f t.tasks (λ x. rw (keep x) refl)
            ∙ ap (map_option (patch (has_id key id) f)) here
            ∙ rw its_key refl),
        written b,
      )

move_task-succeeds :
    (id : ℕ) (f : Task → Task) (event : Event) (t : Tables) {b : Task}
    → ((r : Task) → (f r).id ≡ r.id)
    → find_by_id key id t.tasks ≡ some b
    → (t' : Tables) × (move_task id f event t ≡ ok (t', f b))
unfolding move_task
move_task-succeeds id f event t keep here =
    let done = update-ok key id f t.tasks keep here in
    (
      record t { tasks = update_where (has_id key id) f t.tasks; events = create event t.events },
      rw done refl,
    )

completed-terminal : is_terminal completed ≡ true
unfolding is_terminal
completed-terminal = refl

-- The task is completed when the transaction of its completion has been committed.
complete-HasStatus :
    (fr : Fresh) (tenant actor id : ℕ) (dto : CompleteTask) (t : Tables) {t' : Tables} {s : Task}
    → IsNew key fr.task_id t.tasks
    → complete fr tenant actor id dto t ≡ ok (t', s)
    → HasStatus id completed t'
unfolding complete complete_in_transaction
complete-HasStatus fr tenant actor id dto t {t'} new e =
    >>=-ok_then (own_task (find_task id tenant t.tasks)) _ e λ task own e1.
      >>=-ok_then (assert_active_assignment id actor t.assignments) _ e1 λ u assigned e2.
        >>=-ok_then (validate_transition task.status completed) _ e2 λ v valid e3.
          >>=-ok_then
            (ensure_requirements_met task (list_for_task id t.evidence) dto.evidence
              dto.scan_session_id)
            _ e3
            λ w met e4.
              let t1 = add_many task dto.evidence actor t in
              let event = transition_event completed_event task actor completed dto.notes in
              >>=-ok_then (move_task id (to_completed fr.now task dto) event t1) _ e4 λ r moved e5.
                >>=-ok_then
                  (if task.is_recurring then spawn_next_occurrence fr r.1 actor r.0 else ok r.0) _
                  e5
                  λ t2 finished e6.
                    let (b, here, is_completed) =
                      move_task-HasStatus id (to_completed fr.now task dto) event t1 completed
                        (λ x. refl) (λ x. refl) moved in
                    let still_new =
                      move_task-IsNew fr.task_id id (to_completed fr.now task dto) event t1
                        (λ x. refl) moved
                        (add_many-IsNew fr.task_id task dto.evidence actor t new) in
                    let settled =
                      Spawned-Settled fr r.1 actor r.0 still_new
                        (finish-Spawned fr task.is_recurring r.1 actor r.0 finished) in
                    let (c, there, same) =
                      Settled-find id r.0.tasks t2.tasks settled here
                        (rw is_completed completed-terminal) in
                    let last : t' ≡ t2 = ground (arith, e6) in
                    (c, rw last there, same ∙ is_completed)

-- Two sessions read the same task, which may be completed and may be cancelled. The second one has
-- read and validated, so that only the transaction of its cancellation is left, when the first one
-- completes the task. Where the key for a task that may be inserted is new, that transaction
-- succeeds, and the task, which was completed, is cancelled: it does not look at the status again.
pub cancel_in_transaction-overwrites :
    (fr : Fresh) (tenant actor actor' id : ℕ) (dto : CompleteTask) (reason : String) (task : Task)
    (t : Tables) {t' : Tables} {s : Task}
    → IsNew key fr.task_id t.tasks
    → find_task id tenant t.tasks ≡ some task
    → validate_transition task.status cancelled ≡ ok tt
    → complete fr tenant actor id dto t ≡ ok (t', s)
    → (cancel tenant actor' id reason t ≡ cancel_in_transaction actor' id reason task t)
      × HasStatus id completed t'
      × ((t'' : Tables) × (s' : Task) × (cancel_in_transaction actor' id reason task t'
            ≡ ok (t'', s'))
          × HasStatus id cancelled t'')
unfolding cancel cancel_in_transaction
cancel_in_transaction-overwrites fr tenant actor actor' id dto reason task t {t'} new read valid e =
    let (b, here, is_completed) = complete-HasStatus fr tenant actor id dto t new e in
    let event = transition_event cancelled_event task actor' cancelled (some reason) in
    let (t'', done) = move_task-succeeds id to_cancelled event t' (λ x. refl) here in
    (
      rw (read, valid) refl,
      (b, here, is_completed),
      (
        t'',
        to_cancelled b,
        done,
        move_task-HasStatus id to_cancelled event t' cancelled (λ x. refl) (λ x. refl) done,
      ),
    )
