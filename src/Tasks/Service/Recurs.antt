-- ===== src/Tasks/Service/Recurs.antt =====
-- src/modules/tasks/tasks.service.ts: the completion of a recurring task.
use radha_backend.Prelude.{
  ℕ, subst, Result, ◌≡◌, ◌≢◌, refl, sym, ap, ◌∙◌, true, some, none, List, [], ◌∷◌, arith, inl, inr,
  Bool-cases, ok, err, refused_statement, is_some, not, throw_if, forbidden, >>=-ok_then, find,
  select, if◌then◌else◌, Option,
}
use radha_backend.Prelude.Int.{pos}
use radha_backend.Prelude.Table.{find_by_id, update}
use radha_backend.Prelude.Table.Laws.{Distinct, update-inv}
use radha_backend.Tasks.Types.{
  Task, Assignment, Event, Tables, Fresh, completed, NewEvidence, CompleteTask, completed_event,
}
use radha_backend.Tasks.Workflow.{validate_transition}
use radha_backend.Tasks.Repositories.{
  find_task, list_for_task, add_evidence_count, active_for, active_of, find_active_by_task_and_user,
  list_active_for_task,
}
use radha_backend.Tasks.Evidence.{add, add_many, ensure_requirements_met}
use radha_backend.Tasks.Assignments.{assert_active_assignment}
use radha_backend.Tasks.Recurring.{next_occurrence, spawn_next_occurrence}
use radha_backend.Tasks.Service.{
  own_task, move_task, complete, complete_in_transaction, transition_event, to_completed,
}
use radha_backend.Tasks.Service.Terminal.{key, find_task-id}
use radha_backend.Tasks.Service.Steps.{own_task-own}
use radha_backend.Tasks.Service.Spawning.{spawn-outcome}
use radha_backend.Tasks.Service.Occurrence.{find-increment_counter, spawn_next_occurrence-spawn}

-- Whoever may complete the task is one of its active assignees.
find-select :
    (task user : ℕ) (rows : List Assignment) {a : Assignment}
    → find (active_of task user) rows ≡ some a
    → select (active_for task) rows ≢ []
find-select task user [] e k = cc
find-select task user (r ∷ rows) {a} e k = elim (Bool-cases (active_for task r)) [
  | inl active ↦ let clash : r ∷ select (active_for task) rows ≡ [] = rw active at k in cc
  | inr away ↦
      let less : select (active_for task) rows ≡ [] = rw away at k in
      find-select task user rows {a = a} (ground (arith, e, away)) less
]

asserted-active :
    (task user : ℕ) (rows : List Assignment)
    → assert_active_assignment task user rows ≡ ok tt
    → list_active_for_task task rows ≢ []
unfolding assert_active_assignment find_active_by_task_and_user list_active_for_task
asserted-active task user rows e k = found (find (active_of task user) rows) refl e
  where
    found :
        (o : Option Assignment)
        → find (active_of task user) rows ≡ o
        → throw_if (not (is_some o)) forbidden ≡ ok tt
        → ⊥
    found none h e' = cc
    found (some a) h e' = find-select task user rows h k

add_many-assignments :
    (task : Task) (items : List NewEvidence) (actor : ℕ) (t : Tables)
    → (add_many task items actor t).assignments ≡ t.assignments
unfolding add_many add
add_many-assignments task [] actor t = refl
add_many-assignments task (dto ∷ items) actor t =
    add_many-assignments task items actor (add task dto actor t)

-- Adding evidence changes nothing of the row but the counter.
find-add_many :
    (P : Task → Type 0) (id : ℕ) (task : Task) (items : List NewEvidence) (actor : ℕ) (t : Tables)
    → ((r : Task) → P r → P (add_evidence_count (pos 1) r))
    → ((a : Task) × (find_by_id key id t.tasks ≡ some a) × P a)
    → (b : Task) × (find_by_id key id (add_many task items actor t).tasks ≡ some b) × P b
unfolding add_many add
find-add_many P id task [] actor t holds h = h
find-add_many P id task (dto ∷ items) actor t holds h =
    find-add_many P id task items actor (add task dto actor t) holds
      (find-increment_counter P id task.id (add_evidence_count (pos 1)) t.tasks (λ r. refl) holds h)

-- The row that a transition returns is the patched one, and the assignments are as they were.
move_task-returns :
    (P : Task → Type 0) (id : ℕ) (f : Task → Task) (event : Event) (t : Tables) {r : Tables × Task}
    → ((x : Task) → (f x).id ≡ x.id)
    → ((b : Task) × (find_by_id key id t.tasks ≡ some b) × P b)
    → move_task id f event t ≡ ok r
    → (r.0.assignments ≡ t.assignments) × ((b : Task) × (r.1 ≡ f b) × P b)
unfolding move_task
move_task-returns P id f event t {r} keep (b, here, holds) e =
    >>=-ok_then (update key id f t.tasks) _ e λ u done rest.
      let (_, (c, there, patched)) = update-inv key id f t.tasks keep done in
      let same : b ≡ c = ground (arith, here, there) in
      (ground (arith, rest), (b, ground (arith, rest, patched, same), holds))

-- What the completion's spawn reads of the row: it recurs, at `due`.
abbrev Recurs : Fresh → CompleteTask → Task → ℕ → ℕ → Task → Type 0
Recurs fr dto task id due r =
    (r.is_recurring ≡ true)
    × (next_occurrence fr (to_completed fr.now task dto r) r.recurrence_pattern ≡ some due)
    × (r.id ≡ id)

recurring-refused :
    (fr : Fresh) (dto : CompleteTask) (task : Task) (id due actor : ℕ) (t : Tables) (parent : Task)
    {t' : Tables}
    → task.is_recurring ≡ true
    → list_active_for_task id t.assignments ≢ []
    → ((b : Task) × (parent ≡ to_completed fr.now task dto b) × Recurs fr dto task id due b)
    → (if task.is_recurring then spawn_next_occurrence fr parent actor t else ok t) ≢ ok t'
recurring-refused fr dto task id due actor t parent {t'} recurring active
      (b, row, (recurs, next, its_key)) e =
    let spawning : spawn_next_occurrence fr parent actor t ≡ ok t' = rw recurring at e in
    let same =
      spawn_next_occurrence-spawn fr parent actor t {due = due}
        (ap (λ (x : Task). x.is_recurring) row ∙ recurs)
        (ap (λ (x : Task). next_occurrence fr x x.recurrence_pattern) row ∙ next) in
    elim (spawn-outcome fr parent actor due t) [
      | inl (nobody, done) ↦ active (
          subst (λ n. list_active_for_task n t.assignments ≡ [])
            (ap (λ (x : Task). x.id) row ∙ its_key) nobody)
      | inr (somebody, refused) ↦
          let clash : ◌≡◌ {A = Result Tables} (err refused_statement) (ok t') =
            sym refused ∙ sym same ∙ spawning in
          cc
    ]

-- Where the tasks' keys are distinct, a task that recurs, and that has a next due date at the time of
-- its completion, is never completed: whoever may complete it is an active assignee, and the
-- database refuses to copy the assignment to the next occurrence, which rolls the completion back.
pub complete-never_recurs :
    (fr : Fresh) (tenant actor id : ℕ) (dto : CompleteTask) (t : Tables) {task : Task} {due : ℕ}
    (r : Tables × Task)
    → Distinct key t.tasks
    → find_task id tenant t.tasks ≡ some task
    → task.is_recurring ≡ true
    → next_occurrence fr (to_completed fr.now task dto task) task.recurrence_pattern ≡ some due
    → complete fr tenant actor id dto t ≢ ok r
unfolding complete complete_in_transaction
complete-never_recurs fr tenant actor id dto t {task} {due} r distinct found recurring next e =
    >>=-ok_then (own_task (find_task id tenant t.tasks)) _ e λ own_row own e1.
      >>=-ok_then (assert_active_assignment id actor t.assignments) _ e1 λ u assigned e2.
        >>=-ok_then (validate_transition own_row.status completed) _ e2 λ v valid e3.
          >>=-ok_then
            (ensure_requirements_met own_row (list_for_task id t.evidence) dto.evidence
              dto.scan_session_id)
            _ e3
            λ w met e4.
              let t1 = add_many own_row dto.evidence actor t in
              let event = transition_event completed_event own_row actor completed dto.notes in
              >>=-ok_then (move_task id (to_completed fr.now own_row dto) event t1) _ e4
                λ moved moving e5.
                  >>=-ok_then
                    (if own_row.is_recurring
                      then spawn_next_occurrence fr moved.1 actor moved.0
                      else ok moved.0)
                    _ e5
                    λ t2 finished e6.
                      let own_found = own_task-own _ own in
                      let same : own_row ≡ task = some-eq (sym own_found ∙ found) in
                      let recurring' = ap (λ (x : Task). x.is_recurring) same ∙ recurring in
                      let next' =
                        subst
                          (λ x.
                            next_occurrence fr (to_completed fr.now x dto x) x.recurrence_pattern
                            ≡ some due)
                          (sym same) next in
                      let (its_key, here) = find_task-id id tenant t.tasks distinct own_found in
                      let (kept, row) =
                        move_task-returns (Recurs fr dto own_row id due) id
                          (to_completed fr.now own_row dto) event t1 (λ x. refl)
                          (find-add_many (Recurs fr dto own_row id due) id own_row dto.evidence
                            actor t (λ x h. h) (own_row, here, (recurring', next', its_key)))
                          moving in
                      let active =
                        subst (λ rows. list_active_for_task id rows ≢ [])
                          (sym (kept ∙ add_many-assignments own_row dto.evidence actor t))
                          (asserted-active id actor t.assignments assigned) in
                      recurring-refused fr dto own_row id due actor moved.0 moved.1 recurring'
                        active row finished
  where
    some-eq : {a b : Task} → some a ≡ some b → a ≡ b
    some-eq h = ground (arith, h)
