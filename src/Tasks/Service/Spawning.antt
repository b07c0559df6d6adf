-- ===== src/Tasks/Service/Spawning.antt =====
-- src/modules/tasks/services/recurring-tasks.service.ts: what a spawn leaves, and when it is refused.
use radha_backend.Prelude.{
  ℕ, ◌≡◌, ◌≢◌, refl, sym, Bool, true, false, not, Option, none, some, List, [], ◌∷◌, ◌⊎◌, inl, inr,
  Bool-cases, arith, Result, ok, err, refused_statement, >>=-ok_then, err->>=, if◌then◌else◌, ◌∙◌,
}
use radha_backend.Tasks.Types.{Task, Assignment, Tables, Fresh}
use radha_backend.Tasks.Repositories.{insert_if_missing, list_active_for_task}
use radha_backend.Tasks.Assignments.{new_assignment}
use radha_backend.Tasks.Recurring.{
  occurrence, copy_assignments, spawned, spawn, next_occurrence, spawn_next_occurrence,
}

-- The tables are as they were, or with an occurrence of the parent.
abbrev pub Spawned : Fresh → Task → ℕ → Tables → Tables → Type 0
Spawned fr parent actor t t' =
    (t' ≡ t)
    ⊎ ((due : ℕ) × (rows : List Assignment) × (copied : ℕ) × (t'
          ≡ spawned parent (occurrence fr parent actor due) actor rows copied t))

ok-eq : {t u : Tables} → ◌≡◌ {A = Result Tables} (ok t) (ok u) → u ≡ t
ok-eq e = ground (arith, e)

spawn-Spawned :
    (fr : Fresh) (parent : Task) (actor : ℕ) (due : Option ℕ) (t : Tables) {t' : Tables}
    → spawn fr parent actor due t ≡ ok t'
    → Spawned fr parent actor t t'
unfolding spawn
spawn-Spawned fr parent actor none t e = inl (ok-eq e)
spawn-Spawned fr parent actor (some due) t e =
    >>=-ok_then
      (copy_assignments (occurrence fr parent actor due) actor
        (list_active_for_task parent.id t.assignments) t.assignments)
      _ e λ copied done e1. inr (due, copied.0, copied.1, ok-eq e1)

spawn_next_occurrence-Spawned :
    (fr : Fresh) (parent : Task) (actor : ℕ) (t : Tables) {t' : Tables}
    → spawn_next_occurrence fr parent actor t ≡ ok t'
    → Spawned fr parent actor t t'
unfolding spawn_next_occurrence
spawn_next_occurrence-Spawned fr parent actor t {t'} e = elim (Bool-cases parent.is_recurring) [
  | inl recurring ↦
      spawn-Spawned fr parent actor (next_occurrence fr parent parent.recurrence_pattern) t
        (branch (not parent.is_recurring) (rw recurring refl) e)
  | inr once ↦ inl (ok-eq (same (not parent.is_recurring) (rw once refl) e))
]
  where
    branch :
        (b : Bool)
        → b ≡ false
        → (if b
            then ok t
            else spawn fr parent actor (next_occurrence fr parent parent.recurrence_pattern) t)
          ≡ ok t'
        → spawn fr parent actor (next_occurrence fr parent parent.recurrence_pattern) t ≡ ok t'
    branch true h k = cc
    branch false h k = k

    same :
        (b : Bool)
        → b ≡ true
        → (if b
            then ok t
            else spawn fr parent actor (next_occurrence fr parent parent.recurrence_pattern) t)
          ≡ ok t'
        → ◌≡◌ {A = Result Tables} (ok t) (ok t')
    same true h k = k
    same false h k = cc

-- The last part of a completion.
pub finish-Spawned :
    (fr : Fresh) (b : Bool) (parent : Task) (actor : ℕ) (t : Tables) {t' : Tables}
    → (if b then spawn_next_occurrence fr parent actor t else ok t) ≡ ok t'
    → Spawned fr parent actor t t'
finish-Spawned fr true parent actor t e = spawn_next_occurrence-Spawned fr parent actor t e
finish-Spawned fr false parent actor t e = inl (ok-eq e)

-- The database refuses every insertion of an assignment.
pub insert_if_missing-refused :
    (a : Assignment) (rows : List Assignment) → insert_if_missing a rows ≡ err refused_statement
unfolding insert_if_missing
insert_if_missing-refused a rows = refl

copy_assignments-refused :
    (child : Task) (actor : ℕ) (a : Assignment) (rest rows : List Assignment)
    → copy_assignments child actor (a ∷ rest) rows ≡ err refused_statement
unfolding copy_assignments
copy_assignments-refused child actor a rest rows =
    err->>= (insert_if_missing (new_assignment child a.role actor a.assignee_id) rows) _
      (insert_if_missing-refused (new_assignment child a.role actor a.assignee_id) rows)

-- A spawn at a due date: refused where the parent has an active assignment, and else done.
pub spawn-outcome :
    (fr : Fresh) (parent : Task) (actor due : ℕ) (t : Tables)
    → ((list_active_for_task parent.id t.assignments ≡ [])
        × (spawn fr parent actor (some due) t
            ≡ ok (spawned parent (occurrence fr parent actor due) actor t.assignments 0 t)))
      ⊎ ((list_active_for_task parent.id t.assignments ≢ [])
          × (spawn fr parent actor (some due) t ≡ err refused_statement))
unfolding spawn copy_assignments
spawn-outcome fr parent actor due t = split (list_active_for_task parent.id t.assignments) refl
  where
    split :
        (active : List Assignment)
        → list_active_for_task parent.id t.assignments ≡ active
        → ((list_active_for_task parent.id t.assignments ≡ [])
            × (spawn fr parent actor (some due) t
                ≡ ok (spawned parent (occurrence fr parent actor due) actor t.assignments 0 t)))
          ⊎ ((list_active_for_task parent.id t.assignments ≢ [])
              × (spawn fr parent actor (some due) t ≡ err refused_statement))
    split [] h = inl (h, rw h refl)
    split (a ∷ rest) h = inr (
      λ k. let clash : ◌≡◌ {A = List Assignment} (a ∷ rest) [] = sym h ∙ k in cc,
      rw h (
          err->>= (copy_assignments (occurrence fr parent actor due) actor (a ∷ rest) t.assignments)
            _
            (copy_assignments-refused (occurrence fr parent actor due) actor a rest t.assignments)),
    )
