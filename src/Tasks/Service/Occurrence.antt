-- ===== src/Tasks/Service/Occurrence.antt =====
-- src/modules/tasks/services/recurring-tasks.service.ts: the occurrence that a spawn makes.
use radha_backend.Prelude.{
  ℕ, ◌⊎◌, ok, err, refused_statement, [], ◌<◌, ◌==◌, ◌≡◌, ◌≢◌, refl, ap, ◌∙◌, true, false, not,
  some, List, ltb, arith, Bool-cases, inl, inr, or_else, or_option, if◌then◌else◌, ==_refl,
}
use radha_backend.Prelude.Int.{ℤ, pos}
use radha_backend.Prelude.Table.{has_id, find_by_id, create}
use radha_backend.Prelude.Table.Laws.{patch, map_option, find-update_where}
use radha_backend.Tasks.Recurrence.{Pattern, is_recurrence_pattern, has_remaining_occurrences}
use radha_backend.Tasks.Recurrence.Laws.{calculate_next_due_date-later}
use radha_backend.Tasks.Types.{Task, Assignment, Tables, Fresh, pending}
use radha_backend.Tasks.Repositories.{
  increment_counter, add_occurrence, add_assignee_count, list_active_for_task,
}
use radha_backend.Tasks.Assignments.{count_assignees}
use radha_backend.Tasks.Recurring.{
  spawn, spawned, spawn_next_occurrence, next_occurrence, occurrence,
}
use radha_backend.Tasks.Service.Terminal.{key}
use radha_backend.Tasks.Service.Spawning.{spawn-outcome}

-- The instant from which the next due date is counted.
abbrev counted_from : Fresh → Task → ℕ
counted_from fr parent = or_else (or_option parent.due_date parent.completed_at) fr.now

next_occurrence-later :
    (fr : Fresh) (parent : Task) (p : Pattern) {due : ℕ}
    → p.day_of_month ≢ some 0
    → next_occurrence fr parent (some p) ≡ some due
    → counted_from fr parent < due
next_occurrence-later fr parent p {due} dom e = elim (Bool-cases (is_recurrence_pattern p)) [
  | inr malformed ↦ absurd (ground (arith, malformed, e))
  | inl formed ↦
      elim (Bool-cases (has_remaining_occurrences p parent.recurrence_occurrence_count)) [
        | inr spent ↦ absurd (ground (arith, formed, spent, e))
        | inl left ↦
            calculate_next_due_date-later (counted_from fr parent) p
              parent.recurrence_occurrence_count dom (ground (arith, formed, left, e))
      ]
]

-- A counter's change keeps what it does not touch of the row that a key finds.
pub find-increment_counter :
    (P : Task → Type 0) (n id : ℕ) (f : Task → Task) (rows : List Task)
    → ((r : Task) → (f r).id ≡ r.id)
    → ((r : Task) → P r → P (f r))
    → ((a : Task) × (find_by_id key n rows ≡ some a) × P a)
    → (b : Task) × (find_by_id key n (increment_counter id f rows) ≡ some b) × P b
find-increment_counter P n id f rows keep holds (a, found, h) =
    let after = find-update_where (has_id key n) (has_id key id) f rows (λ r. rw (keep r) refl) in
    (
      patch (has_id key id) f a,
      after ∙ ap (map_option (patch (has_id key id) f)) found,
      elim (Bool-cases (a.id == id)) [ inl e ↦ rw e (holds a h) | inr e ↦ rw e h ],
    )

find-count_assignees :
    (P : Task → Type 0) (k n id : ℕ) (delta : ℤ) (rows : List Task)
    → ((r : Task) → P r → P (add_assignee_count delta r))
    → ((a : Task) × (find_by_id key n rows ≡ some a) × P a)
    → (b : Task) × (find_by_id key n (count_assignees k id delta rows) ≡ some b) × P b
find-count_assignees P k n id delta rows holds h = elim (Bool-cases (ltb 0 k)) [
  | inl copied ↦
      rw copied (find-increment_counter P n id (add_assignee_count delta) rows (λ r. refl) holds h)
  | inr nobody ↦ rw nobody h
]

-- What an occurrence of `parent` that is due at `due` is.
abbrev Occurs : Task → ℕ → Task → Type 0
Occurs parent due child =
    (child.status ≡ pending)
    × (child.due_date ≡ some due)
    × (child.parent_task_id ≡ some parent.id)
    × (child.is_recurring ≡ false)

spawned-Occurs :
    (fr : Fresh) (parent : Task) (actor due : ℕ) (rows : List Assignment) (copied : ℕ) (t : Tables)
    → (child : Task) × (find_by_id key fr.task_id
          (spawned parent (occurrence fr parent actor due) actor rows copied t).tasks
        ≡ some child)
      × Occurs parent due child
spawned-Occurs fr parent actor due rows copied t =
    let child = occurrence fr parent actor due in
    find-increment_counter (Occurs parent due) fr.task_id parent.id add_occurrence _ (λ r. refl)
      (λ r h. h)
      (find-count_assignees (Occurs parent due) copied fr.task_id child.id (pos copied)
        (create child t.tasks) (λ r h. h)
        (child, rw (==_refl fr.task_id) refl, (refl, refl, refl, refl)))

pub spawn_next_occurrence-spawn :
    (fr : Fresh) (parent : Task) (actor : ℕ) (t : Tables) {due : ℕ}
    → parent.is_recurring ≡ true
    → next_occurrence fr parent parent.recurrence_pattern ≡ some due
    → spawn_next_occurrence fr parent actor t ≡ spawn fr parent actor (some due) t
unfolding spawn_next_occurrence
spawn_next_occurrence-spawn fr parent actor t h k =
    ap
      (λ b.
        if not b
        then ok t
        else spawn fr parent actor (next_occurrence fr parent parent.recurrence_pattern) t)
      h
    ∙ ap (λ o. spawn fr parent actor o t) k

-- What a spawn leaves of a recurring task's next occurrence, which is due at `due`.
record IsSpawned (fr : Fresh) (parent : Task) (actor due : ℕ) (t : Tables) : Type 0 where
  after : Tables
  succeeds : spawn_next_occurrence fr parent actor t ≡ ok after
  child : Task
  found : find_by_id key fr.task_id after.tasks ≡ some child
  occurs : Occurs parent due child
  later : counted_from fr parent < due
  same_assignments : after.assignments ≡ t.assignments

-- Where a recurring task has a next due date, and its pattern asks for no day 0 of the month, the
-- spawn has one of two outcomes. If the task has no active assignment, it succeeds: the new task is
-- found under its key, pending, due at that date, which is later than the due date of the task that
-- it follows (or the completion, or the present, where there is none), and not itself recurring.
-- If the task has an active assignment, the database refuses to copy it and the spawn fails.
spawn_next_occurrence-Occurs :
    (fr : Fresh) (parent : Task) (actor : ℕ) (t : Tables) (p : Pattern) {due : ℕ}
    → parent.is_recurring ≡ true
    → parent.recurrence_pattern ≡ some p
    → p.day_of_month ≢ some 0
    → next_occurrence fr parent (some p) ≡ some due
    → ((list_active_for_task parent.id t.assignments ≡ []) × IsSpawned fr parent actor due t)
      ⊎ ((list_active_for_task parent.id t.assignments ≢ [])
          × (spawn_next_occurrence fr parent actor t ≡ err refused_statement))
spawn_next_occurrence-Occurs fr parent actor t p {due} recurring pattern dom e =
    let same : spawn_next_occurrence fr parent actor t ≡ spawn fr parent actor (some due) t =
      spawn_next_occurrence-spawn fr parent actor t recurring
        (ap (next_occurrence fr parent) pattern ∙ e) in
    elim (spawn-outcome fr parent actor due t) [
      | inl (nobody, done) ↦
          let (child, found, occurs) = spawned-Occurs fr parent actor due t.assignments 0 t in
          inl (
            nobody,
            record {
              after = spawned parent (occurrence fr parent actor due) actor t.assignments 0 t;
              succeeds = same ∙ done;
              child = child;
              found = found;
              occurs = occurs;
              later = next_occurrence-later fr parent p dom e;
              same_assignments = refl;
            },
          )
      | inr (somebody, refused) ↦ inr (somebody, same ∙ refused)
    ]
