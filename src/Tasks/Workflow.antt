-- ===== src/Tasks/Workflow.antt =====
-- src/modules/tasks/services/task-workflow.service.ts: the state machine of a task.
pub mod Laws
use radha_backend.Prelude.{
  ℕ, ◌==◌, Bool, true, false, List, [], ◌∷◌, any, not, if◌then◌else◌, Result, ◌>>=◌, ◌>>◌, throw_if,
  business, ErrorCode, business_rule_violation, task_already_completed,
}
use radha_backend.Tasks.Types.{
  Status, pending, in_progress, completed, rejected, cancelled, overdue,
}

abbrev pub status_number : Status → ℕ
status_number pending = 0
status_number in_progress = 1
status_number completed = 2
status_number rejected = 3
status_number cancelled = 4
status_number overdue = 5

abbrev pub same_status : Status → Status → Bool
same_status a b = status_number a == status_number b

-- `TRANSITIONS`, and so `getNextPossibleStatuses`
abbrev pub transitions : Status → List Status
transitions pending = in_progress ∷ cancelled ∷ []
transitions in_progress = completed ∷ rejected ∷ cancelled ∷ []
transitions completed = []
transitions rejected = pending ∷ []
transitions cancelled = []
transitions overdue = in_progress ∷ completed ∷ cancelled ∷ []

-- `canTransitionTo`
unfoldable pub can_transition_to : Status → Status → Bool
can_transition_to from to = any (λ s. same_status s to) (transitions from)

abbrev pub refusal : Status → ErrorCode
refusal completed = task_already_completed
refusal _ = business_rule_violation

-- `validateTransition`
unfoldable pub validate_transition : Status → Status → Result (Unit {0})
validate_transition from to =
    throw_if (same_status from to) (business business_rule_violation)
    >> throw_if (not (any (λ s. same_status s to) (transitions from))) (business (refusal from))

abbrev pub is_empty : List Status → Bool
is_empty [] = true
is_empty (s ∷ rest) = false

-- `isTerminal`
unfoldable pub is_terminal : Status → Bool
is_terminal status = is_empty (transitions status)
