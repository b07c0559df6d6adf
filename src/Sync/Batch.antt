-- ===== src/Sync/Batch.antt =====
-- src/modules/sync/services/sync.service.ts: `processBatch`, on timestamps as parsing leaves them. The
-- handlers of the resources are stubs that accept every item, so no item fails.
pub mod Newest
pub mod Winners
mod Tests
use radha_backend.Prelude.{
  ℕ, zero, suc, Bool, true, false, Option, none, some, List, [], ◌∷◌, ◌==◌, any, if◌then◌else◌,
  or_else, or_option,
}
use radha_backend.Sync.Lamport.{Timestamp, compare_lamport, is_older}
use radha_backend.Sync.Payload.{
  Json, null, boolean, number, text, object, Fields, strip_server_wins, get,
}

-- `SyncResource`
pub data SyncResource : Type 0 where
  scans saved_products allergen_profiles : SyncResource

pub record SyncItem : Type 0 where
  pub idempotency_key : ℕ
  pub payload : Fields
  pub lamport : Option Timestamp

pub data SyncStatus : Type 0 where
  created updated noop conflict : SyncStatus

-- `SyncProcessedItem`
pub record Processed : Type 0 where
  pub index : ℕ
  pub idempotency_key : ℕ
  pub status : SyncStatus
  pub id : Option ℕ

-- `typeof v === 'string'`
abbrev pub text_of : Option Json → Option ℕ
text_of none = none
text_of (some null) = none
text_of (some (boolean b)) = none
text_of (some (number n)) = none
text_of (some (text t)) = some t
text_of (some (object fs)) = none

-- `processScan`, `processSavedProduct` and `processAllergenProfile`: the id of the result
unfoldable pub dispatched_id : SyncResource → Fields → Option ℕ
dispatched_id scans payload =
    or_option (text_of (get "id" payload)) (text_of (get "clientId" payload))
dispatched_id saved_products payload = text_of (get "id" payload)
dispatched_id allergen_profiles payload = text_of (get "id" payload)

-- The highest timestamp of each id, the newest entry first.
abbrev pub Watermarks : Type 0
Watermarks = List (ℕ × Option Timestamp)

-- `watermarks.get(id) ?? null`
abbrev pub mark_of : ℕ → Watermarks → Option Timestamp
mark_of id [] = none
mark_of id (m ∷ ms) = let rest = mark_of id ms in if m.0 == id then m.1 else rest

-- `if (id)`: the empty text is no id
abbrev pub not_empty : Option ℕ → Option ℕ
not_empty none = none
not_empty (some zero) = none
not_empty (some (suc t)) = some (suc t)

-- The id of an item.
unfoldable pub item_id : SyncItem → Option ℕ
item_id i = not_empty (text_of (get "id" (strip_server_wins i.payload)))

-- What the batch gives: a line for each item, and the items that reach a handler, in their order.
pub record Outcome : Type 0 where
  pub processed : List Processed
  pub applied : List SyncItem

abbrev pub skipped : ℕ → SyncItem → Option ℕ → Outcome → Outcome
skipped index i id rest = record rest {
  processed =
      record { index = index; idempotency_key = i.idempotency_key; status = noop; id = id }
      ∷ rest.processed;
}

abbrev pub dispatched : SyncResource → ℕ → SyncItem → Outcome → Outcome
dispatched resource index i rest = record {
  processed =
      record {
        index = index;
        idempotency_key = i.idempotency_key;
        status = created;
        id = dispatched_id resource (strip_server_wins i.payload);
      }
      ∷ rest.processed;
  applied = i ∷ rest.applied;
}

-- The item's id is marked with a later timestamp.
abbrev pub is_stale : SyncItem → Option ℕ → Watermarks → Bool
is_stale i none marks = false
is_stale i (some id) marks = is_older (compare_lamport i.lamport (mark_of id marks))

abbrev pub marked : SyncItem → Option ℕ → Watermarks → Watermarks
marked i none marks = marks
marked i (some id) marks = (id, i.lamport) ∷ marks

-- What the loop does with an item.
pub data Verdict : Type 0 where
  repeat discard apply : Verdict

abbrev pub verdict : List ℕ → Watermarks → SyncItem → Verdict
verdict seen marks i =
    if any (λ k. k == i.idempotency_key) seen
    then repeat
    else if is_stale i (item_id i) marks
    then discard
    else apply

abbrev pub keys_after : Verdict → SyncItem → List ℕ → List ℕ
keys_after repeat i seen = seen
keys_after discard i seen = i.idempotency_key ∷ seen
keys_after apply i seen = i.idempotency_key ∷ seen

abbrev pub marks_after : Verdict → SyncItem → Watermarks → Watermarks
marks_after repeat i marks = marks
marks_after discard i marks = marks
marks_after apply i marks = marked i (item_id i) marks

abbrev pub reported : SyncResource → ℕ → SyncItem → Verdict → Outcome → Outcome
reported resource index i repeat rest = skipped index i none rest
reported resource index i discard rest = skipped index i (item_id i) rest
reported resource index i apply rest = dispatched resource index i rest

-- The loop of `processBatch`
unfoldable pub process_items : SyncResource → ℕ → List ℕ → Watermarks → List SyncItem → Outcome
process_items resource index seen marks [] = record { processed = []; applied = [] }
process_items resource index seen marks (i ∷ is) =
    let v = verdict seen marks i in
    let rest =
      process_items resource (suc index) (keys_after v i seen) (marks_after v i marks) is in
    reported resource index i v rest

-- `processBatch`
unfoldable pub process_batch : SyncResource → List SyncItem → Outcome
process_batch resource items = process_items resource 0 [] [] items
