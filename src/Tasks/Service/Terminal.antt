-- ===== src/Tasks/Service/Terminal.antt =====
-- src/modules/tasks/tasks.service.ts: a task that is completed or cancelled stays so, whatever
-- operations follow.
use radha_backend.Prelude.{
  ℕ, ◌==◌, ◌≡◌, ◌≢◌, refl, ap, ◌∙◌, sym, subst, Bool, true, false, some, List, [], ◌∷◌, arith,
  Bool-cases, inl, inr, ok, >>=-ok_then, ==_iff,
}
use radha_backend.Prelude.Table.{update_where, has_id, find_by_id, update}
use radha_backend.Prelude.Table.Laws.{
  patch, map_option, find-update_where, find-holds, Distinct, IsNew, find→find_by_id, update-inv,
}
use radha_backend.Tasks.Types.{
  Task, Event, Tables, Status, pending, in_progress, completed, rejected, cancelled, overdue,
}
use radha_backend.Tasks.Workflow.{validate_transition, is_terminal}
use radha_backend.Tasks.Repositories.{find_task, task_in_tenant, increment_counter}
use radha_backend.Tasks.Service.{move_task}

abbrev pub key : Task → ℕ
key t = t.id

-- Every task of the first table that is in a terminal status is in the second, in the same status.
pub Settled : List Task → List Task → Type 0
Settled rows rows' =
    (id : ℕ) (a : Task)
    → find_by_id key id rows ≡ some a
    → is_terminal a.status ≡ true
    → (b : Task) × (find_by_id key id rows' ≡ some b) × (b.status ≡ a.status)

pub Settled-refl : (rows : List Task) → Settled rows rows
unfolding Settled
Settled-refl rows id a found terminal = (a, found, refl)

pub Settled-trans :
    (first second third : List Task)
    → Settled first second
    → Settled second third
    → Settled first third
unfolding Settled
Settled-trans first second third h k id a found terminal =
    let (b, found_b, same_b) = h id a found terminal in
    let (c, found_c, same_c) = k id b found_b (rw same_b terminal) in (c, found_c, same_c ∙ same_b)

pub Settled-find :
    (id : ℕ) (rows rows' : List Task) {a : Task}
    → Settled rows rows'
    → find_by_id key id rows ≡ some a
    → is_terminal a.status ≡ true
    → (b : Task) × (find_by_id key id rows' ≡ some b) × (b.status ≡ a.status)
unfolding Settled
Settled-find id rows rows' {a} h found terminal = h id a found terminal

-- A patch that keeps the keys, and the status of the settled tasks that it patches.
pub Settled-update_where :
    (p : Task → Bool) (f : Task → Task) (rows : List Task)
    → ((r : Task) → (f r).id ≡ r.id)
    → ((r : Task)
        → find_by_id key r.id rows ≡ some r
        → is_terminal r.status ≡ true
        → p r ≡ true
        → (f r).status ≡ r.status)
    → Settled rows (update_where p f rows)
unfolding Settled
Settled-update_where p f rows keep same id a found terminal =
    let after = find-update_where (has_id key id) p f rows (λ r. rw (keep r) refl) in
    let its_key : a.id ≡ id = (==_iff a.id id).0 (find-holds (has_id key id) rows found) in
    let here = subst (λ n. find_by_id key n rows ≡ some a) (sym its_key) found in
    (
      patch p f a,
      after ∙ ap (map_option (patch p f)) found,
      elim (Bool-cases (p a)) [ inl e ↦ rw e (same a here terminal e) | inr e ↦ rw e refl ],
    )

pub Settled-create :
    (row : Task) (rows : List Task) → IsNew key row.id rows → Settled rows (row ∷ rows)
unfolding Settled
Settled-create row rows new id a found terminal = elim (Bool-cases (row.id == id)) [
  | inl same ↦ absurd (
      new_key rows new
        (subst (λ n. find_by_id key n rows ≡ some a) (sym ((==_iff row.id id).0 same)) found))
  | inr other ↦ (a, rw other found, refl)
]
  where
    new_key : (rows : List Task) → IsNew key row.id rows → find_by_id key row.id rows ≢ some a
    new_key [] u e = cc
    new_key (r ∷ rows) u e = ground (arith, u.0, ==_iff r.id row.id, new_key rows u.1)

pub Settled-increment_counter :
    (id : ℕ) (f : Task → Task) (rows : List Task)
    → ((r : Task) → (f r).id ≡ r.id)
    → ((r : Task) → (f r).status ≡ r.status)
    → Settled rows (increment_counter id f rows)
Settled-increment_counter id f rows keep same =
    Settled-update_where (has_id key id) f rows keep (λ r found terminal hit. same r)

-- A status that a transition leaves is not terminal.
pub validate_transition-open :
    (from to : Status) → validate_transition from to ≡ ok tt → is_terminal from ≡ false
unfolding validate_transition is_terminal
validate_transition-open pending to h = refl
validate_transition-open in_progress to h = refl
validate_transition-open completed to h = ground arith
validate_transition-open rejected to h = refl
validate_transition-open cancelled to h = ground arith
validate_transition-open overdue to h = refl

-- The row that a query of the tenant found is the one of its key.
pub find_task-id :
    (id tenant : ℕ) (rows : List Task) {task : Task}
    → Distinct key rows
    → find_task id tenant rows ≡ some task
    → (task.id ≡ id) × (find_by_id key id rows ≡ some task)
unfolding find_task
find_task-id id tenant rows {task} distinct found =
    let holds = find-holds (task_in_tenant id tenant) rows found in
    let its_key : task.id ≡ id = ground (arith, holds, ==_iff task.id id) in
    (
      its_key,
      subst (λ n. find_by_id key n rows ≡ some task) its_key
          (find→find_by_id key (task_in_tenant id tenant) rows distinct found),
    )

-- A transition of an open task settles nothing else.
pub Settled-move_task :
    (id : ℕ) (f : Task → Task) (event : Event) (t : Tables) {t' : Tables} {s task : Task}
    → ((r : Task) → (f r).id ≡ r.id)
    → find_by_id key id t.tasks ≡ some task
    → is_terminal task.status ≡ false
    → move_task id f event t ≡ ok (t', s)
    → Settled t.tasks t'.tasks
unfolding move_task
Settled-move_task id f event t {t'} {s} {task} keep found going e =
    >>=-ok_then (update key id f t.tasks) _ e λ r done rest.
      let (after, _) = update-inv key id f t.tasks keep done in
      let rows : t'.tasks ≡ update_where (has_id key id) f t.tasks = ground (arith, rest, after) in
      rw rows (
        Settled-update_where (has_id key id) f t.tasks keep λ r here terminal hit.
          let its_key : r.id ≡ id = (==_iff r.id id).0 hit in
          let again = subst (λ n. find_by_id key n t.tasks ≡ some r) its_key here in
          absurd (ground (arith, again, found, going, terminal)))

-- Every task of the first table is in the second, in the same status.
pub Kept : List Task → List Task → Type 0
Kept rows rows' =
    (id : ℕ) (a : Task)
    → find_by_id key id rows ≡ some a
    → (b : Task) × (find_by_id key id rows' ≡ some b) × (b.status ≡ a.status)

pub Kept→Settled : (rows rows' : List Task) → Kept rows rows' → Settled rows rows'
unfolding Kept Settled
Kept→Settled rows rows' h id a found terminal = h id a found

pub Kept-refl : (rows : List Task) → Kept rows rows
unfolding Kept
Kept-refl rows id a found = (a, found, refl)

pub Kept-trans :
    (first second third : List Task) → Kept first second → Kept second third → Kept first third
unfolding Kept
Kept-trans first second third h k id a found =
    let (b, found_b, same_b) = h id a found in
    let (c, found_c, same_c) = k id b found_b in (c, found_c, same_c ∙ same_b)

pub Kept-increment_counter :
    (id : ℕ) (f : Task → Task) (rows : List Task)
    → ((r : Task) → (f r).id ≡ r.id)
    → ((r : Task) → (f r).status ≡ r.status)
    → Kept rows (increment_counter id f rows)
unfolding Kept
Kept-increment_counter id f rows keep same j a found =
    let after = find-update_where (has_id key j) (has_id key id) f rows (λ r. rw (keep r) refl) in
    (
      patch (has_id key id) f a,
      after ∙ ap (map_option (patch (has_id key id) f)) found,
      elim (Bool-cases (a.id == id)) [ inl e ↦ rw e (same a) | inr e ↦ rw e refl ],
    )

pub Kept-find :
    (id : ℕ) (rows rows' : List Task) {a : Task}
    → Kept rows rows'
    → find_by_id key id rows ≡ some a
    → (b : Task) × (find_by_id key id rows' ≡ some b) × (b.status ≡ a.status)
unfolding Kept
Kept-find id rows rows' {a} h found = h id a found
