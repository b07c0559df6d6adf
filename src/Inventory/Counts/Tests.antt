-- ===== src/Inventory/Counts/Tests.antt =====
-- Runs of src/modules/inventory/services/stock-count.service.ts on a store with two products, and
-- the theorems at those inputs.
use radha_backend.Prelude.{
  ℕ, String, ◌≡◌, refl, none, some, [], ◌∷◌, arith, Result, ok, err, map, Failure, business,
  concurrent_modification, ◌≢◌, inl,
}
use radha_backend.Prelude.Int.{ℤ, pos, ◌+ℤ◌, ◌-ℤ◌, abs}
use radha_backend.Prelude.Table.{update, find_by_id}
use radha_backend.Inventory.Types.{Item, Tables, Fresh}
use radha_backend.Inventory.Repositories.{
  item_at, find_by_product_and_store, find_applicable_rule, find_product_rule,
}
use radha_backend.Inventory.Alerts.{check_and_create}
use radha_backend.Inventory.Movement.{reason_to_source_type, record_movement}
use radha_backend.Inventory.Movement.Adjust.{adjust}
use radha_backend.Inventory.Counts.{
  Count, Line, CountTables, CountResult, RecordLineInput, in_progress, same_count_status,
  find_by_id_in_tenant, update_status_guarded, insert_line, sort_lines, find_by_count,
  find_by_count_and_product, upsert_for_product, count_key,
}
use radha_backend.Inventory.Counts.Workflow.{
  start_count, record_line, record_line_in_transaction, settle_line, settle_lines,
  complete_in_transaction, complete_count, cancel_in_transaction, cancel_count,
}
use radha_backend.Inventory.Stock.Adjusting.{quantity_at}
use radha_backend.Inventory.Counts.Lines.{LineRecorded, record_line-LineRecorded}
use radha_backend.Inventory.Counts.Completion.{Completed, complete_count-Completed}
use radha_backend.Inventory.Counts.Stuck.{complete_count-is_stuck}
use radha_backend.Inventory.Counts.Closed.{complete_in_transaction-once}

abbrev item : ℕ → ℕ → ℤ → Item
item id p q = record {
  id = id;
  tenant_id = 7;
  store_id = 20;
  product_id = p;
  quantity = q;
  reserved_quantity = pos 0;
  available_quantity = q;
  low_stock_threshold = none;
  is_low_stock = 0;
  last_movement_at = none;
  last_in_at = none;
  last_out_at = none;
  total_in = q;
  total_out = pos 0;
  deleted_at = none;
}

abbrev stock : Tables
stock = record {
  items = item 1 10 (pos 8) ∷ item 2 11 (pos 3) ∷ [];
  batches = [];
  movements = [];
  rules = [];
  alerts = [];
}

abbrev fresh : ℕ → Fresh
fresh n = record { now = n; item_id = n; batch_id = n; movement_id = n; alert_id = n }

abbrev note : ℕ → ℤ → String
note id variance = "Stock count"

abbrev counted : ℕ → ℤ → RecordLineInput
counted p q = record { product_id = p; counted_quantity = q; notes = none }

abbrev started : CountTables × Count
started =
    start_count 1 100 7 3 (record { store_id = 20; notes = none; started_at = none })
      (record { counts = []; lines = []; stock = stock })

abbrev tables_of {ℓ} : {A : Type ℓ} → CountTables → Result (CountTables × A) → CountTables
tables_of t (ok r) = r.0
tables_of t (err e) = t

abbrev result_of {ℓ} : {A : Type ℓ} → A → Result (CountTables × A) → A
result_of a (ok r) = r.1
result_of a (err e) = a

-- The definitions that a run computes with.
runs : Unit {0}
unfolding start_count record_line record_line_in_transaction upsert_for_product find_by_id_in_tenant
    find_by_count_and_product find_by_count sort_lines insert_line same_count_status
    update_status_guarded settle_line settle_lines complete_in_transaction complete_count
    cancel_in_transaction cancel_count adjust record_movement check_and_create find_applicable_rule
    find_product_rule find_by_product_and_store item_at reason_to_source_type update ◌+ℤ◌ ◌-ℤ◌ abs
runs = tt

abbrev one_line : CountTables
one_line = tables_of started.0 (record_line 5 110 7 1 (counted 10 (pos 6)) started.0)

abbrev two_lines : CountTables
two_lines = tables_of started.0 (record_line 6 120 7 1 (counted 11 (pos 3)) one_line)

abbrev the_count : Count
the_count = started.1

abbrev no_result : CountResult
no_result = record {
  count_id = 0;
  total_products = 0;
  variances = 0;
  total_variance_quantity = pos 0;
  adjustments_created = 0;
}

abbrev no_line : Line
no_line = record {
  id = 0;
  stock_count_id = 0;
  tenant_id = 0;
  store_id = 0;
  product_id = 0;
  system_quantity = pos 0;
  counted_quantity = pos 0;
  variance = pos 0;
  notes = none;
  adjustment_movement_id = none;
  created_at = 0;
}

abbrev closed : CountTables
closed = tables_of started.0 (complete_count fresh note 7 3 200 1 two_lines)

abbrev closed_result : CountResult
closed_result = result_of no_result (complete_count fresh note 7 3 200 1 two_lines)

-- The product counted short is adjusted, and the one counted right is not.
completion_adjusts :
    (map (λ (i : Item). i.quantity) closed.stock.items ≡ pos 6 ∷ pos 3 ∷ [])
    × (closed_result.adjustments_created ≡ 1)
    × (closed_result.total_variance_quantity ≡ pos 2)
unfolding runs
completion_adjusts = (refl, refl, refl)

record_line-LineRecorded_example :
    let recount = record_line 7 130 7 1 (counted 10 (pos 9)) two_lines in
    (c : Count) × (find_by_id_in_tenant 1 7 two_lines.counts ≡ some c)
    × (c.status ≡ in_progress)
    × LineRecorded 1 10
        (quantity_at 10 c.store_id two_lines.stock)
        (pos 9)
        two_lines.lines
        (tables_of started.0 recount).lines
        (result_of no_line recount)
    × ((tables_of started.0 recount).stock ≡ two_lines.stock)
    × ((tables_of started.0 recount).counts ≡ two_lines.counts)
unfolding runs
record_line-LineRecorded_example =
    record_line-LineRecorded 7 130 7 1 (counted 10 (pos 9)) two_lines (omega arith)
      ((refl, tt), (tt, tt)) refl

complete_count-Completed_example :
    (c : Count) × (find_by_id_in_tenant 1 7 two_lines.counts ≡ some c)
    × (c.status ≡ in_progress)
    × Completed c (find_by_count 1 two_lines.lines) two_lines closed closed_result
unfolding runs
complete_count-Completed_example =
    complete_count-Completed fresh note 7 3 200 1 two_lines (omega arith) ((refl, tt), (tt, tt))
      refl

complete_in_transaction-once_example :
    ((d : Count) × (find_by_id count_key 1 closed.counts ≡ some d) × (d.status ≢ in_progress))
    × ((e : Failure) × (complete_in_transaction fresh note 7 3 210 the_count closed ≡ err e))
    × (cancel_in_transaction 210 4 "late" the_count closed ≡ err (business concurrent_modification))
unfolding runs
complete_in_transaction-once_example =
    complete_in_transaction-once fresh note 7 3 200 210 210 4 4 "" "late" the_count two_lines closed
      (omega arith) (inl (_, refl))

-- A line of a product that the store has no item of.
abbrev with_unknown : CountTables
with_unknown = tables_of started.0 (record_line 8 125 7 1 (counted 12 (pos 4)) two_lines)

complete_count-is_stuck_example :
    (e : Failure) × (complete_count fresh note 7 3 200 1 with_unknown ≡ err e)
unfolding runs
complete_count-is_stuck_example =
    complete_count-is_stuck fresh note 7 3 200 1 with_unknown (omega arith) refl refl
