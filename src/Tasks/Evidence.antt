-- ===== src/Tasks/Evidence.antt =====
-- src/modules/tasks/services/task-evidence.service.ts
use radha_backend.Prelude.{
  ℕ, ◌==◌, Bool, true, false, ◌&&◌, ◌||◌, not, is_some, Option, none, some, List, [], ◌∷◌, ◌++◌,
  map, any, length, ltb, Result, ok, err, ◌>>=◌, ◌>>◌, throw_if, not_found, forbidden, business,
  business_rule_violation,
}
use radha_backend.Prelude.Int.{pos, negsuc}
use radha_backend.Prelude.Table.{create, update}
use radha_backend.Tasks.Types.{
  Task, Evidence, Event, Tables, Fresh, NewEvidence, EvidenceType, photo, scan, evidence_added,
  evidence_removed,
}
use radha_backend.Tasks.Repositories.{add_evidence_count, increment_counter, find_evidence}

abbrev pub new_evidence : Task → NewEvidence → ℕ → Evidence
new_evidence task dto actor = record {
  id = dto.id;
  task_id = task.id;
  tenant_id = task.tenant_id;
  type = dto.type;
  media_id = dto.media_id;
  scan_session_id = dto.scan_session_id;
  note = dto.note;
  added_by = actor;
  deleted_at = none;
}

abbrev pub evidence_added_event : Task → ℕ → Event
evidence_added_event task actor = record {
  task_id = task.id;
  tenant_id = task.tenant_id;
  type = evidence_added;
  actor_id = actor;
  from_status = none;
  to_status = none;
  notes = none;
}

-- `add`
unfoldable pub add : Task → NewEvidence → ℕ → Tables → Tables
add task dto actor t = record t {
  tasks = increment_counter task.id (add_evidence_count (pos 1)) t.tasks;
  evidence = create (new_evidence task dto actor) t.evidence;
  events = create (evidence_added_event task actor) t.events;
}

-- `addMany`
unfoldable pub add_many : Task → List NewEvidence → ℕ → Tables → Tables
add_many task [] actor t = t
add_many task (dto ∷ items) actor t = add_many task items actor (add task dto actor t)

abbrev pub evidence_removed_event : Evidence → ℕ → Event
evidence_removed_event row actor = record {
  task_id = row.task_id;
  tenant_id = row.tenant_id;
  type = evidence_removed;
  actor_id = actor;
  from_status = none;
  to_status = none;
  notes = none;
}

abbrev pub own_evidence : Option Evidence → Result Evidence
own_evidence none = err not_found
own_evidence (some row) = ok row

abbrev pub deleted : ℕ → Evidence → Evidence
deleted now e = record e { deleted_at = some now }

-- The three writes of `remove`. No transaction holds them together: each is committed by itself.
unfoldable pub soft_delete_evidence : Fresh → ℕ → Tables → Result Tables
soft_delete_evidence fr id t = do
  r ← update (λ (e : Evidence). e.id) id (deleted fr.now) t.evidence
  ok (record t { evidence = r.0 })

unfoldable pub uncount_evidence : Evidence → Tables → Tables
uncount_evidence row t = record t {
  tasks = increment_counter row.task_id (add_evidence_count (negsuc 0)) t.tasks;
}

unfoldable pub log_removal : Evidence → ℕ → Tables → Tables
log_removal row actor t = record t { events = create (evidence_removed_event row actor) t.events }

-- `remove`, where no other session writes in between
unfoldable pub remove : Fresh → ℕ → ℕ → ℕ → Tables → Result Tables
remove fr tenant actor id t = do
  row ← own_evidence (find_evidence id tenant t.evidence)
  throw_if (not (row.added_by == actor)) forbidden
  t' ← soft_delete_evidence fr id t
  ok (log_removal row actor (uncount_evidence row t'))

-- The items that `ensureRequirementsMet` looks at.
pub record EvidenceItem : Type 0 where
  pub type : EvidenceType
  pub media_id : Option ℕ
  pub scan_session_id : Option ℕ

abbrev pub item_of_evidence : Evidence → EvidenceItem
item_of_evidence e = record {
  type = e.type;
  media_id = e.media_id;
  scan_session_id = e.scan_session_id;
}

abbrev pub item_of_new : NewEvidence → EvidenceItem
item_of_new e = record { type = e.type; media_id = e.media_id; scan_session_id = e.scan_session_id }

abbrev pub is_photo : EvidenceType → Bool
is_photo photo = true
is_photo _ = false

abbrev pub is_scan : EvidenceType → Bool
is_scan scan = true
is_scan _ = false

abbrev pub has_photo : List EvidenceItem → Bool
has_photo all = any (λ e. is_photo e.type && is_some e.media_id) all

abbrev pub has_scan : List EvidenceItem → Bool
has_scan all = any (λ e. is_scan e.type && is_some e.scan_session_id) all

-- The three tests on all the items.
unfoldable pub check_items : Task → List EvidenceItem → Option ℕ → Result (Unit {0})
check_items task all scan_session =
    throw_if (ltb 0 task.minimum_evidence_count && ltb (length all) task.minimum_evidence_count)
      (business business_rule_violation)
    >> throw_if (task.requires_photo && not (has_photo all)) (business business_rule_violation)
    >> throw_if
        (task.requires_scan
          && (not (has_scan all) && not (is_some scan_session || is_some task.scan_session_id)))
        (business business_rule_violation)

-- `ensureRequirementsMet`
unfoldable pub ensure_requirements_met :
    Task → List Evidence → List NewEvidence → Option ℕ → Result (Unit {0})
ensure_requirements_met task existing incoming scan_session =
    check_items task (map item_of_evidence existing ++ map item_of_new incoming) scan_session
