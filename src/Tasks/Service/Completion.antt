-- ===== src/Tasks/Service/Completion.antt =====
-- src/modules/tasks/tasks.service.ts: the evidence of a task at its completion.
use radha_backend.Prelude.{
  ℕ, inl, inr, ◌≤◌, ◌≡◌, refl, sym, subst, ap, ◌∙◌, Bool, true, false, ◌||◌, is_some, Option, some,
  List, [], ◌∷◌, ◌++◌, map, any, length, arith, ok, Failure, ◌>>◌, >>=-ok_then, throw_if,
  if◌then◌else◌, ==_refl,
}
use radha_backend.Prelude.Table.{update}
use radha_backend.Prelude.Table.Laws.{Distinct, update-inv}
use radha_backend.Tasks.Types.{
  Task, Event, Evidence, Tables, Fresh, completed, NewEvidence, CompleteTask, completed_event,
}
use radha_backend.Tasks.Workflow.{validate_transition}
use radha_backend.Tasks.Repositories.{find_task, list_for_task}
use radha_backend.Tasks.Evidence.{
  EvidenceItem, item_of_evidence, item_of_new, has_photo, has_scan, check_items, add, add_many,
  ensure_requirements_met,
}
use radha_backend.Tasks.Assignments.{assert_active_assignment}
use radha_backend.Tasks.Recurring.{spawn_next_occurrence}
use radha_backend.Tasks.Service.{own_task, move_task, complete, transition_event, to_completed}
use radha_backend.Tasks.Service.{complete_in_transaction}
use radha_backend.Tasks.Service.Spawning.{Spawned, finish-Spawned}
use radha_backend.Tasks.Service.Terminal.{key, find_task-id}
use radha_backend.Tasks.Service.Steps.{own_task-own}

no_throw :
    (a b c : Bool) (e f g : Failure)
    → (throw_if a e >> throw_if b f >> throw_if c g) ≡ ok tt
    → (a ≡ false) × (b ≡ false) × (c ≡ false)
no_throw true b c e f g h = ground arith
no_throw false true c e f g h = ground arith
no_throw false false true e f g h = ground arith
no_throw false false false e f g h = (refl, refl, refl)

-- What the items of a completion have to hold.
pub record Meets (task : Task) (all : List EvidenceItem) (scan_session : Option ℕ) : Type 0 where
  pub enough : task.minimum_evidence_count ≤ length all
  pub photo : task.requires_photo ≡ true → has_photo all ≡ true
  pub scan :
      task.requires_scan ≡ true
      → (has_scan all || (is_some scan_session || is_some task.scan_session_id)) ≡ true

check_items-Meets :
    (task : Task) (all : List EvidenceItem) (scan_session : Option ℕ)
    → check_items task all scan_session ≡ ok tt
    → Meets task all scan_session
unfolding check_items
check_items-Meets task all scan_session h =
    let (few, no_photo, no_scan) = no_throw _ _ _ _ _ _ h in
    record {
      enough = ground (arith, few);
      photo = λ asked. ground (arith, asked, no_photo);
      scan = λ asked. ground (arith, asked, no_scan);
    }

-- The items of a task after the evidence has been added.
abbrev items_of : ℕ → List Evidence → List EvidenceItem
items_of id rows = map item_of_evidence (list_for_task id rows)

add-items :
    (task : Task) (dto : NewEvidence) (actor : ℕ) (t : Tables)
    → items_of task.id (add task dto actor t).evidence
      ≡ item_of_new dto ∷ items_of task.id t.evidence
unfolding add list_for_task
add-items task dto actor t = rw (==_refl task.id) refl

-- Two lists that no count and no search for an item tells apart.
abbrev Alike : List EvidenceItem → List EvidenceItem → Type 0
Alike xs ys = (length xs ≡ length ys) × ((q : EvidenceItem → Bool) → any q xs ≡ any q ys)

Alike-trans : (xs ys zs : List EvidenceItem) → Alike xs ys → Alike ys zs → Alike xs zs
Alike-trans xs ys zs h k = (h.0 ∙ k.0, λ q. h.1 q ∙ k.1 q)

Alike-nil : (xs : List EvidenceItem) → Alike xs (xs ++ [])
Alike-nil [] = (refl, λ q. refl)
Alike-nil (x ∷ xs) =
    let rest = Alike-nil xs in (omega (arith, rest.0), λ q. ap (λ b. q x || b) (rest.1 q))

Alike-move :
    (x : EvidenceItem) (xs ys : List EvidenceItem) → Alike (x ∷ (xs ++ ys)) (xs ++ (x ∷ ys))
Alike-move x [] ys = (refl, λ q. refl)
Alike-move x (y ∷ xs) ys =
    let rest = Alike-move x xs ys in
    (
      omega (arith, rest.0),
      λ q. swap (q x) (q y) (any q (xs ++ ys)) (any q (xs ++ (x ∷ ys))) (rest.1 q),
    )
  where
    swap : (a b c d : Bool) → (a || c) ≡ d → (a || (b || c)) ≡ (b || d)
    swap true true c d h = refl
    swap true false c d h = h
    swap false true c d h = refl
    swap false false c d h = h

add_many-Alike :
    (task : Task) (items : List NewEvidence) (actor : ℕ) (t : Tables)
    → Alike
        (items_of task.id (add_many task items actor t).evidence)
        (items_of task.id t.evidence ++ map item_of_new items)
unfolding add_many
add_many-Alike task [] actor t = Alike-nil (items_of task.id t.evidence)
add_many-Alike task (dto ∷ items) actor t =
    let before = items_of task.id t.evidence in
    let incoming = map item_of_new items in
    Alike-trans _ (item_of_new dto ∷ (before ++ incoming)) _
      (subst
        (λ all.
          Alike (items_of task.id (add_many task items actor (add task dto actor t)).evidence)
            (all ++ incoming))
        (add-items task dto actor t) (add_many-Alike task items actor (add task dto actor t)))
      (Alike-move (item_of_new dto) before incoming)

Meets-Alike :
    (task : Task) (all all' : List EvidenceItem) (scan_session : Option ℕ)
    → Alike all' all
    → Meets task all scan_session
    → Meets task all' scan_session
Meets-Alike task all all' scan_session alike meets = record {
  enough = omega (arith, alike.0, meets.enough);
  photo = λ asked. alike.1 _ ∙ meets.photo asked;
  scan = λ asked.
      ap (λ b. b || (is_some scan_session || is_some task.scan_session_id)) (alike.1 _)
      ∙ meets.scan asked;
}

Spawned-evidence :
    (fr : Fresh) (parent : Task) (actor : ℕ) (t : Tables) {t' : Tables}
    → Spawned fr parent actor t t'
    → t'.evidence ≡ t.evidence
Spawned-evidence fr parent actor t (inl same) = ap (λ (x : Tables). x.evidence) same
Spawned-evidence fr parent actor t (inr (due, rows, copied, e)) = ap (λ (x : Tables). x.evidence) e

move_task-moved :
    (id : ℕ) (f : Task → Task) (event : Event) (t : Tables) {t' : Tables} {s : Task}
    → ((r : Task) → (f r).id ≡ r.id)
    → move_task id f event t ≡ ok (t', s)
    → (t'.evidence ≡ t.evidence) × ((r : Task) × (s ≡ f r))
unfolding move_task
move_task-moved id f event t {t'} {s} keep e =
    >>=-ok_then (update key id f t.tasks) _ e λ r done rest.
      let (_, (a, _, patched)) = update-inv key id f t.tasks keep done in
      (ground (arith, rest), (a, ground (arith, rest, patched)))

-- Where the tasks' keys are distinct, a completion that succeeds while no other session writes found
-- the tenant's task, returns it completed at the present time, and leaves the task at that moment
-- with the evidence that it asks for: the minimum number of items, a photo where one is required,
-- and where a scan is required a scan among the items, in the request or on the task. Nothing is
-- said of the time after: a removal of evidence does not look at the task's status.
pub complete-Meets :
    (fr : Fresh) (tenant actor id : ℕ) (dto : CompleteTask) (t : Tables) {t' : Tables} {s : Task}
    → Distinct key t.tasks
    → complete fr tenant actor id dto t ≡ ok (t', s)
    → (task : Task) × (find_task id tenant t.tasks ≡ some task)
      × (s.status ≡ completed)
      × (s.completed_at ≡ some fr.now)
      × Meets task (map item_of_evidence (list_for_task id t'.evidence)) dto.scan_session_id
unfolding complete complete_in_transaction ensure_requirements_met
complete-Meets fr tenant actor id dto t {t'} {s} distinct e =
    >>=-ok_then (own_task (find_task id tenant t.tasks)) _ e λ task own e1.
      >>=-ok_then (assert_active_assignment id actor t.assignments) _ e1 λ u assigned e2.
        >>=-ok_then (validate_transition task.status completed) _ e2 λ v valid e3.
          let before = items_of id t.evidence ++ map item_of_new dto.evidence in
          >>=-ok_then (check_items task before dto.scan_session_id) _ e3 λ w met e4.
            let t1 = add_many task dto.evidence actor t in
            let event = transition_event completed_event task actor completed dto.notes in
            >>=-ok_then (move_task id (to_completed fr.now task dto) event t1) _ e4 λ r moved e5.
              >>=-ok_then
                (if task.is_recurring then spawn_next_occurrence fr r.1 actor r.0 else ok r.0) _ e5
                λ t2 finished e6.
                  let found = own_task-own _ own in
                  let (its_key, _) = find_task-id id tenant t.tasks distinct found in
                  let (same_evidence, (row, patched)) =
                    move_task-moved id (to_completed fr.now task dto) event t1 (λ x. refl) moved in
                  let returned : s ≡ to_completed fr.now task dto row =
                    ground (arith, e6, patched) in
                  let done : t' ≡ t2 = ground (arith, e6) in
                  let last : t'.evidence ≡ t1.evidence =
                    ap (λ (x : Tables). x.evidence) done
                    ∙ Spawned-evidence fr r.1 actor r.0
                        (finish-Spawned fr task.is_recurring r.1 actor r.0 finished)
                    ∙ same_evidence in
                  let alike =
                    subst
                      (λ n.
                        Alike (items_of n t1.evidence)
                          (items_of n t.evidence ++ map item_of_new dto.evidence))
                      its_key (add_many-Alike task dto.evidence actor t) in
                  (
                    task,
                    found,
                    ap (λ (x : Task). x.status) returned,
                    ap (λ (x : Task). x.completed_at) returned,
                    Meets-Alike task before _ dto.scan_session_id
                        (subst (λ rows. Alike (items_of id rows) before) (sym last) alike)
                        (check_items-Meets task before dto.scan_session_id met),
                  )
