-- ===== src/Sync/Batch/Tests.antt =====
-- A batch of src/modules/sync/services/sync.service.ts, and the theorems at it.
use mathlib.Core.List.{Permᴰ}
use radha_backend.Prelude.{
  ℕ, ◌≡◌, refl, none, some, List, [], ◌∷◌, All, select, arith, map, any, str_eq, if◌then◌else◌,
}
use radha_backend.Sync.Lamport.{Timestamp, compare_text, compare_lamport}
use radha_backend.Sync.Payload.{
  text, object, Fields, nil, field, user_fields, subscription_fields, delete_fields, clean_nested,
  strip_server_wins, get,
}
use radha_backend.Sync.Payload.Stripped.{stripped, get_inner, strip_server_wins-keeps_rest}
use radha_backend.Sync.Batch.{
  SyncItem, Processed, created, noop, saved_products, dispatched_id, item_id, process_items,
  process_batch,
}
use radha_backend.Sync.Batch.Newest.{IsUpTo, last_write, names_id}
use radha_backend.Sync.Batch.Winners.{process_batch-newest_wins, process_batch-Converges}

-- The definitions that a run computes with.
runs : Unit {0}
unfolding compare_text compare_lamport delete_fields clean_nested strip_server_wins get
    dispatched_id item_id process_items process_batch
runs = tt

abbrev stamp : ℕ → Timestamp
stamp n = record { counter = n; node_id = 97 ∷ [] }

abbrev item : ℕ → ℕ → SyncItem
item key n = record {
  idempotency_key = key;
  payload = field "id" (text 5) (field "role" (text 9) nil);
  lamport = some (stamp n);
}

abbrev batch : List SyncItem
batch = item 1 4 ∷ item 2 7 ∷ item 3 6 ∷ []

abbrev shuffled : List SyncItem
shuffled = item 2 7 ∷ item 1 4 ∷ item 3 6 ∷ []

-- The item that comes after a newer one is not applied.
older_is_noop :
    map (λ (p : Processed). p.status) (process_batch saved_products batch).processed
    ≡ created ∷ created ∷ noop ∷ []
unfolding runs
older_is_noop = refl

process_batch-newest_wins_example :
    All
      (λ i. IsUpTo i.lamport (last_write 5 none (process_batch saved_products batch).applied))
      (select (names_id 5) batch)
process_batch-newest_wins_example = process_batch-newest_wins saved_products 5 batch (omega arith)

process_batch-Converges_example :
    last_write 5 none (process_batch saved_products batch).applied
    ≡ last_write 5 none (process_batch saved_products shuffled).applied
process_batch-Converges_example =
    process_batch-Converges saved_products 5 batch shuffled (omega arith) (omega arith)
      (Permᴰ.swap refl refl)

abbrev payload : Fields
payload =
    field "id" (text 5)
      (field "role" (text 9) (field "user" (object (field "role" (text 9) nil)) nil))

strip_server_wins-keeps_rest_example :
    (get "role" (strip_server_wins payload) ≡ stripped "role" (get "role" payload))
    × (get_inner "role" (get "user" (strip_server_wins payload))
        ≡ (if any (str_eq "role") user_fields then none else get_inner "role" (get "user" payload)))
    × (get_inner "role" (get "subscription" (strip_server_wins payload)) ≡ (
        if any (str_eq "role") subscription_fields
        then none
        else get_inner "role" (get "subscription" payload)))
strip_server_wins-keeps_rest_example = strip_server_wins-keeps_rest payload "role"
