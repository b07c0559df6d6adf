-- ===== src/Tasks/Types.antt =====
-- src/modules/tasks/types/task.types.ts and src/db/schema/tasks.ts: the rows of the tasks, their
-- assignments, evidence and events. Keys are numbers, instants milliseconds. The free `metadata`,
-- the audit columns that nothing reads, and the keys of assignments and events are left out.
use radha_backend.Prelude.{ℕ, String, Bool, Option, List}
use radha_backend.Prelude.Int.{ℤ}
use radha_backend.Tasks.Recurrence.{Pattern}

-- `TaskStatus`
pub data Status : Type 0 where
  pending in_progress completed rejected cancelled overdue : Status

-- `TaskPriority`
pub data Priority : Type 0 where
  low medium high urgent : Priority

-- `TaskType`
pub data TaskType : Type 0 where
  expiry_check shelf_audit inventory_count price_update cleaning : TaskType
  restock training maintenance other : TaskType

-- `TaskAssignmentRoleType`
pub data Role : Type 0 where
  primary observer : Role

-- `TaskEvidenceType`
pub data EvidenceType : Type 0 where
  photo scan note video : EvidenceType

-- `TaskEventType`
pub data EventType : Type 0 where
  created_event assigned_event started_event updated_event completed_event : EventType
  rejected_event cancelled_event reassigned_event unassigned_event evidence_added : EventType
  evidence_removed comment status_changed overdue_event recurrence_spawned : EventType

-- `tasks`
pub record Task : Type 0 where
  pub id : ℕ
  pub tenant_id : ℕ
  pub store_id : ℕ
  pub title : String
  pub description : Option String
  pub type : TaskType
  pub priority : Priority
  pub status : Status
  pub start_date : Option ℕ
  pub due_date : Option ℕ
  pub started_at : Option ℕ
  pub completed_at : Option ℕ
  pub estimated_duration_minutes : Option ℕ
  pub actual_duration_minutes : Option ℕ
  pub requires_photo : Bool
  pub requires_scan : Bool
  pub minimum_evidence_count : ℕ
  pub expiry_alert_id : Option ℕ
  pub product_ids : List ℕ
  pub scan_session_id : Option ℕ
  pub template_id : Option ℕ
  pub is_recurring : Bool
  pub recurrence_pattern : Option Pattern
  pub parent_task_id : Option ℕ
  pub recurrence_occurrence_count : ℕ
  pub evidence_count : ℤ
  pub assignee_count : ℤ
  pub overdue_marked_at : Option ℕ
  pub deleted_at : Option ℕ
  pub created_by : ℕ

-- `task_assignments`
pub record Assignment : Type 0 where
  pub task_id : ℕ
  pub assignee_id : ℕ
  pub tenant_id : ℕ
  pub role : Role
  pub assigned_by : ℕ
  pub revoked_at : Option ℕ
  pub revoked_by : Option ℕ
  pub revoked_reason : Option String

-- `task_evidence`
pub record Evidence : Type 0 where
  pub id : ℕ
  pub task_id : ℕ
  pub tenant_id : ℕ
  pub type : EvidenceType
  pub media_id : Option ℕ
  pub scan_session_id : Option ℕ
  pub note : Option String
  pub added_by : ℕ
  pub deleted_at : Option ℕ

-- `task_events`
pub record Event : Type 0 where
  pub task_id : ℕ
  pub tenant_id : ℕ
  pub type : EventType
  pub actor_id : ℕ
  pub from_status : Option Status
  pub to_status : Option Status
  pub notes : Option String

-- The four tables.
pub record Tables : Type 0 where
  pub tasks : List Task
  pub assignments : List Assignment
  pub evidence : List Evidence
  pub events : List Event

-- The clock, and the key of a task that an operation inserts.
pub record Fresh : Type 0 where
  pub now : ℕ
  pub task_id : ℕ

-- `AddEvidenceDto`, with the key of the row that it becomes
pub record NewEvidence : Type 0 where
  pub id : ℕ
  pub type : EvidenceType
  pub media_id : Option ℕ
  pub scan_session_id : Option ℕ
  pub note : Option String

-- `CompleteTaskDto`
pub record CompleteTask : Type 0 where
  pub notes : Option String
  pub scan_session_id : Option ℕ
  pub evidence : List NewEvidence

-- `ReassignTaskDto`
pub record ReassignTask : Type 0 where
  pub assignee_ids : List ℕ
  pub role : Role
  pub reason : Option String
  pub replace : Bool

-- `CreateTaskDto`
pub record CreateTask : Type 0 where
  pub store_id : ℕ
  pub title : String
  pub description : Option String
  pub type : TaskType
  pub priority : Priority
  pub assignee_ids : List ℕ
  pub observer_ids : List ℕ
  pub start_date : Option ℕ
  pub due_date : Option ℕ
  pub estimated_duration_minutes : Option ℕ
  pub requires_photo : Bool
  pub requires_scan : Bool
  pub minimum_evidence_count : ℕ
  pub expiry_alert_id : Option ℕ
  pub product_ids : List ℕ
  pub scan_session_id : Option ℕ
  pub template_id : Option ℕ
  pub is_recurring : Bool
  pub recurrence_pattern : Option Pattern

-- `UpdateTaskDto`: it has no status
pub record UpdateTask : Type 0 where
  pub title : Option String
  pub description : Option String
  pub priority : Option Priority
  pub start_date : Option ℕ
  pub due_date : Option ℕ
  pub estimated_duration_minutes : Option ℕ
  pub requires_photo : Option Bool
  pub requires_scan : Option Bool
  pub minimum_evidence_count : Option ℕ
  pub product_ids : Option (List ℕ)
