-- ===== src/Inventory/Tests.antt =====
-- Runs of src/modules/inventory on one product with two batches, and the theorems at those inputs.
use radha_backend.Prelude.{
  ℕ, ◌≡◌, refl, Option, none, some, List, [], ◌∷◌, ◌++◌, false, arith, Result, ok, err, business,
  insufficient_stock, Succeeds, map, String,
}
use radha_backend.Prelude.Int.{ℤ, pos, ◌+ℤ◌, ◌-ℤ◌, ◌≤ℤ◌, ◌<ℤ◌, min_ℤ}
use radha_backend.Prelude.Table.{update}
use radha_backend.Prelude.{true, ◌↔◌, ◌&&◌, not, if◌then◌else◌}
use radha_backend.Prelude.Int.{leb_ℤ}
use radha_backend.Inventory.Alerts.Opened.{is_open, check_and_create-Opened}
use radha_backend.Inventory.Movement.Inbound.{new_item}
use radha_backend.Inventory.Types.{Alert}
use radha_backend.Inventory.Types.{
  Item, Batch, Tables, Fresh, StockInInput, StockOutInput, AdjustStockInput, Movement,
  MovementResult, grn_post, sale, correction, Rule,
}
use radha_backend.Inventory.Repositories.{
  item_at, batch_at, in_stock_at, find_by_product_and_store, find_by_batch_number,
  find_fifo_batches, sort_fifo, insert_fifo, fifo_le, sum_quantity, find_applicable_rule,
  find_product_rule, create_if_not_active, find_active_for_item, active_at, resolve_for_item,
}
use radha_backend.Inventory.Alerts.{
  relabel, keep_labels, raise_alert, clear_alert, check_and_create,
}
use radha_backend.Inventory.Movement.{
  reason_to_source_type, parse_reference, second_piece, before_colon, record_movement,
}
use radha_backend.Inventory.Movement.Inbound.{upsert_batch, stock_in, foreign_tenant}
use radha_backend.Inventory.Movement.Outbound.{deduct, deduct_fifo, apply_stock_out, stock_out}
use radha_backend.Inventory.Movement.Adjust.{adjust}
use radha_backend.Inventory.Stock.Sound.{IsSound}
use radha_backend.Inventory.Stock.StockIn.{stock_in-IsSound, stock_in-PutIn, PutIn}
use radha_backend.Inventory.Stock.StockOut.{stock_out-IsSound, stock_out-TakenOut, TakenOut}
use radha_backend.Inventory.Stock.Progress.{stock_out-Succeeds}
use radha_backend.Inventory.Stock.Desync.{Adjusted, adjust-Adjusted, adjust-strands_stock}

-- A rule that calls two units or fewer low stock.
abbrev rule : Rule
rule = record {
  id = 1;
  tenant_id = 7;
  store_id = 20;
  product_id = some 10;
  category = none;
  threshold = pos 2;
  enabled = 1;
  deleted_at = none;
}

abbrev nothing : Tables
nothing = record { items = []; batches = []; movements = []; rules = rule ∷ []; alerts = [] }

abbrev fresh : ℕ → Fresh
fresh n = record { now = n; item_id = n; batch_id = n; movement_id = n; alert_id = n }

abbrev delivery : ℤ → Option String → Option ℕ → StockInInput
delivery q batch expiry = record {
  product_id = 10;
  store_id = 20;
  quantity = q;
  reason = grn_post;
  batch_number = batch;
  expiry_date = expiry;
  manufacture_date = none;
  reference = some "grn:42";
  source_type = none;
  source_id = none;
  notes = none;
}

abbrev order : ℤ → StockOutInput
order q = record {
  product_id = 10;
  store_id = 20;
  quantity = q;
  reason = sale;
  batch_number = none;
  source_type = none;
  source_id = none;
  notes = none;
}

abbrev recount : AdjustStockInput
recount = record {
  product_id = 10;
  store_id = 20;
  new_quantity = pos 9;
  reason = correction;
  notes = none;
}

abbrev movements_of : Result (Tables × MovementResult) → List Movement
movements_of (ok r) = r.1.movement ∷ []
movements_of (err e) = []

abbrev tables_of : Tables → Result (Tables × MovementResult) → Tables
tables_of t (ok r) = r.0
tables_of t (err e) = t

-- The definitions that a run of a stock-in computes with.
runs : Unit {0}
unfolding stock_in upsert_batch record_movement check_and_create relabel keep_labels raise_alert
    clear_alert find_by_product_and_store item_at find_by_batch_number batch_at find_applicable_rule
    find_product_rule create_if_not_active find_active_for_item active_at resolve_for_item
    reason_to_source_type parse_reference second_piece before_colon update ◌+ℤ◌ ◌-ℤ◌ stock_out
    apply_stock_out deduct deduct_fifo find_fifo_batches sort_fifo insert_fifo fifo_le in_stock_at
    min_ℤ adjust sum_quantity
runs = tt

abbrev after_one : Tables
after_one =
    tables_of nothing (stock_in (fresh 1) 7 3 (delivery (pos 5) (some "A") (some 90)) nothing)

abbrev after_two : Tables
after_two = tables_of nothing (stock_in (fresh 2) 7 3 (delivery (pos 3) none (some 60)) after_one)

abbrev after_sale : Tables
after_sale = tables_of nothing (stock_out (fresh 3) 7 3 (order (pos 4)) after_two)

abbrev after_recount : Tables
after_recount = tables_of nothing (adjust (fresh 3) 7 3 recount after_two)

-- The delivery that expires first is sold first, and its batch number is the movement's.
sale_is_fifo :
    (map (λ (b : Batch). b.quantity) after_two.batches ≡ pos 3 ∷ pos 5 ∷ [])
    × (map (λ (b : Batch). b.quantity) after_sale.batches ≡ pos 0 ∷ pos 4 ∷ [])
    × (map (λ (i : Item). i.quantity) after_sale.items ≡ pos 4 ∷ [])
unfolding runs
sale_is_fifo = (refl, refl, refl)

nothing-IsSound : IsSound nothing
unfolding runs
nothing-IsSound = record {
  item_keys = tt;
  batch_keys = tt;
  reconciled = λ p s. refl;
  batches_nonneg = tt;
  availability = tt;
}

after_one-IsSound : IsSound after_one
unfolding runs
after_one-IsSound =
    stock_in-IsSound (fresh 1) 7 3 (delivery (pos 5) (some "A") (some 90)) nothing nothing-IsSound
      (record { item = tt; batch = tt }) refl

stock_in-IsSound_example : IsSound after_one
unfolding runs
stock_in-IsSound_example =
    stock_in-IsSound (fresh 1) 7 3 (delivery (pos 5) (some "A") (some 90)) nothing nothing-IsSound
      (record { item = tt; batch = tt }) refl

after_two-IsSound : IsSound after_two
unfolding runs
after_two-IsSound =
    stock_in-IsSound (fresh 2) 7 3 (delivery (pos 3) none (some 60)) after_one after_one-IsSound
      (record { item = omega arith; batch = omega arith }) refl

stock_in-PutIn_example :
    PutIn 10 20 (pos 3) after_one after_two
    × (pos 0 <ℤ pos 3)
    × (after_two.movements
        ≡ movements_of (stock_in (fresh 2) 7 3 (delivery (pos 3) none (some 60)) after_one)
          ++ after_one.movements)
    × (foreign_tenant (find_by_product_and_store 10 20 after_one.items) 7 ≡ false)
unfolding runs
stock_in-PutIn_example =
    stock_in-PutIn (fresh 2) 7 3 (delivery (pos 3) none (some 60)) after_one after_one-IsSound
      (record { item = omega arith; batch = omega arith }) refl

stock_out-IsSound_example : IsSound after_sale
unfolding runs
stock_out-IsSound_example =
    stock_out-IsSound (fresh 3) 7 3 (order (pos 4)) after_two after_two-IsSound refl

stock_out-TakenOut_example :
    (i : Item) × (find_by_product_and_store 10 20 after_two.items ≡ some i)
    × (i.tenant_id ≡ 7)
    × (pos 0 <ℤ pos 4)
    × (pos 4 ≤ℤ i.available_quantity)
    × TakenOut 10 20 (pos 4) i.quantity after_two after_sale
unfolding runs
stock_out-TakenOut_example =
    stock_out-TakenOut (fresh 3) 7 3 (order (pos 4)) after_two after_two-IsSound refl

stock_out-Succeeds_example : Succeeds (stock_out (fresh 3) 7 3 (order (pos 8)) after_two)
unfolding runs
stock_out-Succeeds_example =
    stock_out-Succeeds (fresh 3) 7 3 (order (pos 8)) after_two after_two-IsSound refl refl refl
      (omega arith) (omega arith)

adjust-Adjusted_example :
    (i : Item) × (find_by_product_and_store 10 20 after_two.items ≡ some i)
    × (i.tenant_id ≡ 7)
    × (pos 0 ≤ℤ pos 9)
    × Adjusted 10 20 (pos 9) i after_two after_recount
unfolding runs
adjust-Adjusted_example = adjust-Adjusted (fresh 3) 7 3 recount after_two after_two-IsSound refl

adjust-strands_stock_example :
    ((j : Item) × (find_by_product_and_store 10 20 after_recount.items ≡ some j)
      × (j.available_quantity ≡ pos 9))
    × (stock_out (fresh 4) 7 3 (order (pos 9)) after_recount ≡ err (business insufficient_stock))
unfolding runs
adjust-strands_stock_example =
    adjust-strands_stock (fresh 3) (fresh 4) 7 3 recount (order (pos 9)) after_two after_two-IsSound
      refl refl refl (omega arith) refl refl refl refl

-- The item of the first delivery, down to one unit.
abbrev low_item : Item
low_item = new_item (fresh 1) 7 (delivery (pos 1) none none)

abbrev alerts_after : Result (Tables × ℕ) → List Alert
alerts_after (ok r) = r.0.alerts
alerts_after (err e) = []

abbrev count_of : Result (Tables × ℕ) → ℕ
count_of (ok r) = r.1
count_of (err e) = 0

check_and_create-Opened_example :
    let check = check_and_create (fresh 9) low_item after_two in
    ((is_open 10 20 (alerts_after check) ≡ true) ↔ (pos 1 ≤ℤ pos 2))
    × (count_of check
        ≡ (if leb_ℤ (pos 1) (pos 2) && not (is_open 10 20 after_two.alerts) then 1 else 0))
unfolding runs
check_and_create-Opened_example =
    check_and_create-Opened (fresh 9) low_item after_two rule refl refl refl
