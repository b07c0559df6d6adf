-- ===== src/Tasks/Service/Steps.antt =====
-- src/modules/tasks/tasks.service.ts: the operations as steps between the tables, and their runs.
use radha_backend.Prelude.{
  ℕ, String, ◌≡◌, refl, sym, subst, Option, none, some, List, [], ◌∷◌, arith, Bool-cases, inl, inr,
  ok, >>=-ok_then, ltb, Bool, ap, ◌∙◌, true, false,
}
use radha_backend.Prelude.Table.{find_by_id, update}
use radha_backend.Prelude.Table.Laws.{Distinct}
use radha_backend.Prelude.Int.{ℤ, pos, negsuc}
use radha_backend.Tasks.Types.{
  Task, Evidence, Event, Role, Tables, Fresh, Status, in_progress, rejected, cancelled, NewEvidence,
  ReassignTask, Assignment,
}
use radha_backend.Tasks.Workflow.{validate_transition}
use radha_backend.Tasks.Recurrence.{unique}
use radha_backend.Tasks.Repositories.{
  find_task, add_evidence_count, add_assignee_count, insert_if_missing,
}
use radha_backend.Tasks.Evidence.{
  add, add_many, deleted, uncount_evidence, log_removal, soft_delete_evidence,
}
use radha_backend.Tasks.Assignments.{
  assert_active_assignment, assign_each, assign_batch, reassign_task, revoke_primaries,
  count_assignees, new_assignment, assigned_to,
}
use radha_backend.Tasks.Service.{
  own_task, move_task, start, reject, cancel, to_started, to_rejected, to_cancelled,
  start_in_transaction, cancel_in_transaction, reject_in_transaction,
}
use radha_backend.Tasks.Service.Terminal.{
  key, Settled, Kept, Kept→Settled, Kept-refl, Kept-trans, Kept-increment_counter,
  Settled-increment_counter, Settled-move_task, validate_transition-open, find_task-id,
}

pub own_task-own : (o : Option Task) {task : Task} → own_task o ≡ ok task → o ≡ some task
own_task-own none e = cc
own_task-own (some s) e = cc

-- What a transition's operation does before its transaction, and the transaction.
pub Settled-by_move :
    (id tenant : ℕ) (to : Status) (f : Task → Task) (event : Event) (t t1 : Tables) {t' : Tables}
    {s task : Task}
    → Distinct key t.tasks
    → own_task (find_task id tenant t.tasks) ≡ ok task
    → validate_transition task.status to ≡ ok tt
    → ((r : Task) → (f r).id ≡ r.id)
    → t1.tasks ≡ t.tasks
    → move_task id f event t1 ≡ ok (t', s)
    → Settled t.tasks t'.tasks
Settled-by_move id tenant to f event t t1 {t'} {s} {task} distinct own valid keep same e =
    let (_, found) = find_task-id id tenant t.tasks distinct (own_task-own _ own) in
    subst (λ rows. Settled rows t'.tasks) same
      (Settled-move_task id f event t1 keep
        (subst (λ rows. find_by_id key id rows ≡ some task) (sym same) found)
        (validate_transition-open task.status to valid) e)

pub start-Settled :
    (fr : Fresh) (tenant actor id : ℕ) (t : Tables) {t' : Tables} {s : Task}
    → Distinct key t.tasks
    → start fr tenant actor id t ≡ ok (t', s)
    → Settled t.tasks t'.tasks
unfolding start start_in_transaction
start-Settled fr tenant actor id t distinct e =
    >>=-ok_then (own_task (find_task id tenant t.tasks)) _ e λ task own e1.
      >>=-ok_then (assert_active_assignment id actor t.assignments) _ e1 λ u assigned e2.
        >>=-ok_then (validate_transition task.status in_progress) _ e2 λ v valid e3.
          Settled-by_move id tenant in_progress (to_started fr.now) _ t t distinct own valid
            (λ r. refl) refl e3

pub reject-Settled :
    (tenant actor id : ℕ) (reason : String) (t : Tables) {t' : Tables} {s : Task}
    → Distinct key t.tasks
    → reject tenant actor id reason t ≡ ok (t', s)
    → Settled t.tasks t'.tasks
unfolding reject reject_in_transaction
reject-Settled tenant actor id reason t distinct e =
    >>=-ok_then (own_task (find_task id tenant t.tasks)) _ e λ task own e1.
      >>=-ok_then (assert_active_assignment id actor t.assignments) _ e1 λ u assigned e2.
        >>=-ok_then (validate_transition task.status rejected) _ e2 λ v valid e3.
          Settled-by_move id tenant rejected to_rejected _ t t distinct own valid (λ r. refl) refl
            e3

pub cancel-Settled :
    (tenant actor id : ℕ) (reason : String) (t : Tables) {t' : Tables} {s : Task}
    → Distinct key t.tasks
    → cancel tenant actor id reason t ≡ ok (t', s)
    → Settled t.tasks t'.tasks
unfolding cancel cancel_in_transaction
cancel-Settled tenant actor id reason t distinct e =
    >>=-ok_then (own_task (find_task id tenant t.tasks)) _ e λ task own e1.
      >>=-ok_then (validate_transition task.status cancelled) _ e1 λ v valid e2.
        Settled-by_move id tenant cancelled to_cancelled _ t t distinct own valid (λ r. refl) refl
          e2

pub add_many-Kept :
    (task : Task) (items : List NewEvidence) (actor : ℕ) (t : Tables)
    → Kept t.tasks (add_many task items actor t).tasks
unfolding add_many add
add_many-Kept task [] actor t = Kept-refl t.tasks
add_many-Kept task (dto ∷ items) actor t =
    Kept-trans t.tasks (add task dto actor t).tasks
      (add_many task items actor (add task dto actor t)).tasks
      (Kept-increment_counter task.id (add_evidence_count (pos 1)) t.tasks (λ r. refl) (λ r. refl))
      (add_many-Kept task items actor (add task dto actor t))

pub count_assignees-Kept :
    (n id : ℕ) (delta : ℤ) (rows : List Task) → Kept rows (count_assignees n id delta rows)
count_assignees-Kept n id delta rows = elim (Bool-cases (ltb 0 n)) [
  | inl some_rows ↦
      rw some_rows
        (Kept-increment_counter id (add_assignee_count delta) rows (λ r. refl) (λ r. refl))
  | inr no_rows ↦ rw no_rows (Kept-refl rows)
]

assigned_to-tasks :
    (task : Task) (actor : ℕ) (inserted : List Assignment × Bool) (t : Tables)
    → (assigned_to task actor inserted t).tasks ≡ t.tasks
assigned_to-tasks task actor (rows, true) t = refl
assigned_to-tasks task actor (rows, false) t = refl

assign_each-tasks :
    (task : Task) (role : Role) (actor : ℕ) (ids : List ℕ) (t : Tables) {r : Tables × ℕ}
    → assign_each task role actor ids t ≡ ok r
    → r.0.tasks ≡ t.tasks
unfolding assign_each
assign_each-tasks task role actor [] t {r} e = ground (arith, e)
assign_each-tasks task role actor (id ∷ ids) t {r} e =
    >>=-ok_then (insert_if_missing (new_assignment task role actor id) t.assignments) _ e
      λ inserted first e1.
        >>=-ok_then (assign_each task role actor ids (assigned_to task actor inserted t)) _ e1
          λ others rest e2.
            let done : r.0 ≡ others.0 = ground (arith, e2) in
            ap (λ (x : Tables). x.tasks) done
            ∙ assign_each-tasks task role actor ids (assigned_to task actor inserted t) rest
            ∙ assigned_to-tasks task actor inserted t

pub assign_batch-Kept :
    (task : Task) (ids : List ℕ) (role : Role) (actor : ℕ) (t : Tables) {r : Tables × ℕ}
    → assign_batch task ids role actor t ≡ ok r
    → Kept t.tasks r.0.tasks
unfolding assign_batch
assign_batch-Kept task ids role actor t {r} e =
    >>=-ok_then (assign_each task role actor (unique ids) t) _ e λ each done e1.
      let rows : r.0.tasks ≡ count_assignees each.1 task.id (pos each.1) each.0.tasks =
        ground (arith, e1) in
      rw (rows, assign_each-tasks task role actor (unique ids) t done)
        (count_assignees-Kept each.1 task.id (pos each.1) t.tasks)

pub revoke_primaries-Kept :
    (fr : Fresh) (task : Task) (dto : ReassignTask) (actor : ℕ) (t : Tables)
    → Kept t.tasks (revoke_primaries fr task dto actor t).tasks
revoke_primaries-Kept fr task dto actor t = elim (Bool-cases dto.replace) [
  | inl replaced ↦ rw replaced (count_assignees-Kept _ task.id _ t.tasks)
  | inr added ↦ rw added (Kept-refl t.tasks)
]

pub reassign_task-Settled :
    (fr : Fresh) (task : Task) (dto : ReassignTask) (actor : ℕ) (t : Tables) {t' : Tables}
    → reassign_task fr task dto actor t ≡ ok t'
    → Settled t.tasks t'.tasks
unfolding reassign_task
reassign_task-Settled fr task dto actor t {t'} e =
    let less = revoke_primaries fr task dto actor t in
    >>=-ok_then (assign_batch task dto.assignee_ids dto.role actor less) _ e λ r done e1.
      let rows : t'.tasks ≡ r.0.tasks = ground (arith, e1) in
      rw rows (
        Kept→Settled t.tasks r.0.tasks (
          Kept-trans t.tasks less.tasks r.0.tasks (revoke_primaries-Kept fr task dto actor t)
            (assign_batch-Kept task dto.assignee_ids dto.role actor less done)))

pub add-Settled :
    (task : Task) (dto : NewEvidence) (actor : ℕ) (t : Tables)
    → Settled t.tasks (add task dto actor t).tasks
unfolding add
add-Settled task dto actor t =
    Settled-increment_counter task.id (add_evidence_count (pos 1)) t.tasks (λ r. refl) (λ r. refl)

pub soft_delete_evidence-tasks :
    (fr : Fresh) (id : ℕ) (t : Tables) {t' : Tables}
    → soft_delete_evidence fr id t ≡ ok t'
    → t'.tasks ≡ t.tasks
unfolding soft_delete_evidence
soft_delete_evidence-tasks fr id t {t'} e =
    >>=-ok_then (update (λ (x : Evidence). x.id) id (deleted fr.now) t.evidence) _ e
      λ r done e1. ground (arith, e1)

pub uncount_evidence-Settled :
    (row : Evidence) (t : Tables) → Settled t.tasks (uncount_evidence row t).tasks
unfolding uncount_evidence
uncount_evidence-Settled row t =
    Settled-increment_counter row.task_id (add_evidence_count (negsuc 0)) t.tasks (λ r. refl)
      (λ r. refl)

pub log_removal-tasks :
    (row : Evidence) (actor : ℕ) (t : Tables) → (log_removal row actor t).tasks ≡ t.tasks
unfolding log_removal
log_removal-tasks row actor t = refl
