-- ===== src/Tasks/Workflow/Laws.antt =====
-- src/modules/tasks/services/task-workflow.service.ts: the state machine, held against the diagram of
-- its documentation.
use radha_backend.Prelude.{
  ◌≡◌, ◌≢◌, ◌↔◌, ◌⊎◌, true, ok, err, business, task_already_completed, arith,
}
use radha_backend.Tasks.Types.{
  Status, pending, in_progress, completed, rejected, cancelled, overdue,
}
use radha_backend.Tasks.Workflow.{can_transition_to, validate_transition, is_terminal}

-- The arrows of the diagram, by the status that they lead into.
abbrev pub LeadsTo : Status → Status → Type 0
LeadsTo pending from = from ≡ rejected
LeadsTo in_progress from = (from ≡ pending) ⊎ (from ≡ overdue)
LeadsTo completed from = (from ≡ in_progress) ⊎ (from ≡ overdue)
LeadsTo rejected from = from ≡ in_progress
LeadsTo cancelled from = (from ≡ pending) ⊎ (from ≡ in_progress) ⊎ (from ≡ overdue)
LeadsTo overdue from = ⊥

-- A transition is validated exactly when the diagram has its arrow, and this is what canTransitionTo
-- says; it is refused with the code for a completed task exactly when a completed task is to
-- get another status; and a status is terminal exactly when it is completed or cancelled.
pub validate_transition_iff :
    (from to : Status)
    → ((validate_transition from to ≡ ok tt) ↔ LeadsTo to from)
      × ((can_transition_to from to ≡ true) ↔ LeadsTo to from)
      × ((validate_transition from to ≡ err (business task_already_completed))
          ↔ ((from ≡ completed) × (to ≢ completed)))
      × ((is_terminal from ≡ true) ↔ ((from ≡ completed) ⊎ (from ≡ cancelled)))
unfolding validate_transition can_transition_to is_terminal
validate_transition_iff from pending = (ground arith, ground arith, ground arith, ground arith)
validate_transition_iff from to = (ground arith, ground arith, ground arith, ground arith)
