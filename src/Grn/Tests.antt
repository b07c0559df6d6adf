-- ===== src/Grn/Tests.antt =====
-- Runs of src/modules/grn/services/grn-reversal.service.ts on one receipt of one line, and the
-- theorems at those inputs.
use radha_backend.Prelude.{
  ℕ, String, ◌≡◌, refl, none, some, [], ◌∷◌, Result, ok, err, business, business_rule_violation,
  length, select,
}
use radha_backend.Prelude.Int.{pos, ◌+ℤ◌, ◌-ℤ◌, min_ℤ}
use radha_backend.Prelude.Table.{update}
use radha_backend.Inventory.Types.{Tables, Fresh, StockInInput, grn_post}
use radha_backend.Inventory.Repositories.{
  item_at, batch_at, in_stock_at, find_by_product_and_store, find_by_batch_number,
  find_fifo_batches, sort_fifo, insert_fifo, fifo_le, sum_quantity, find_applicable_rule,
  find_product_rule,
}
use radha_backend.Inventory.Alerts.{check_and_create}
use radha_backend.Inventory.Movement.{
  reason_to_source_type, parse_reference, second_piece, before_colon, record_movement,
}
use radha_backend.Inventory.Movement.Inbound.{upsert_batch, stock_in}
use radha_backend.Inventory.Movement.Outbound.{deduct, deduct_fifo, apply_stock_out, stock_out}
use radha_backend.Inventory.Service.{apply_outbound}
use radha_backend.Inventory.Stock.Sound.{IsSound}
use radha_backend.Inventory.Stock.StockIn.{stock_in-IsSound}
use radha_backend.Inventory.Stock.Adjusting.{quantity_at}
use radha_backend.Grn.{
  posted, reversed, Header, GrnItem, GrnTables, same_grn_status, find_header, update_header_guarded,
  find_by_grn, sort_items, insert_item,
}
use radha_backend.Grn.Reversal.{
  ReverseResult, Reverted, none_reverted, revert_line, revert_lines, finish_reversal,
  reverse_in_transaction, reverse,
}
use radha_backend.Grn.Reversal.Stock.{TakenBack, taken_back, has_product}
use radha_backend.Grn.Reversal.Twice.{reverse-TakenBack, reverse-once, reverse_in_transaction-twice}

abbrev nothing : Tables
nothing = record { items = []; batches = []; movements = []; rules = []; alerts = [] }

abbrev fresh : ℕ → Fresh
fresh n = record { now = n; item_id = n; batch_id = n; movement_id = n; alert_id = n }

abbrev key_text : ℕ → String
key_text n = "key"

abbrev delivery : StockInInput
delivery = record {
  product_id = 10;
  store_id = 20;
  quantity = pos 8;
  reason = grn_post;
  batch_number = none;
  expiry_date = none;
  manufacture_date = none;
  reference = none;
  source_type = some "grn";
  source_id = some "key";
  notes = none;
}

abbrev tables_of {ℓ} : {A : Type ℓ} → Result (Tables × A) → Tables
tables_of (ok r) = r.0
tables_of (err e) = nothing

abbrev header : Header
header = record {
  id = 1;
  tenant_id = 7;
  store_id = 20;
  status = posted;
  reversed_at = none;
  reversed_by = none;
  reversal_reason = none;
  deleted_at = none;
}

abbrev line : GrnItem
line = record {
  id = 5;
  grn_id = 1;
  tenant_id = 7;
  store_id = 20;
  product_id = some 10;
  quantity = pos 3;
  batch_number = none;
  expiry_date = none;
  expiry_record_id = none;
  created_at = 90;
}

abbrev receipts : GrnTables
receipts = record { headers = header ∷ []; items = line ∷ []; events = [] }

-- The definitions that a run computes with.
runs : Unit {0}
unfolding stock_in upsert_batch record_movement check_and_create find_by_product_and_store item_at
    find_by_batch_number batch_at find_applicable_rule find_product_rule reason_to_source_type
    parse_reference second_piece before_colon update ◌+ℤ◌ ◌-ℤ◌ stock_out apply_stock_out deduct
    deduct_fifo find_fifo_batches sort_fifo insert_fifo fifo_le in_stock_at min_ℤ sum_quantity
    apply_outbound same_grn_status find_header update_header_guarded find_by_grn sort_items
    insert_item revert_line revert_lines finish_reversal reverse_in_transaction reverse
runs = tt

abbrev stocked : Tables
stocked = tables_of (stock_in (fresh 1) 7 3 delivery nothing)

abbrev ran : Tables × Result (GrnTables × ReverseResult)
ran = reverse fresh key_text 7 3 100 1 "damaged" receipts stocked

abbrev receipts_of : Result (GrnTables × ReverseResult) → GrnTables
receipts_of (ok r) = r.0
receipts_of (err e) = receipts

abbrev count_of : Result (GrnTables × ReverseResult) → ℕ
count_of (ok r) = r.1.inventory_reverted
count_of (err e) = 0

-- The stock after the loop of a second session.
abbrev again : Tables × Result Reverted
again = revert_lines fresh key_text 7 3 1 (find_by_grn 1 receipts.items) ran.0 none_reverted

two_sessions_take_twice :
    (quantity_at 10 20 stocked ≡ pos 8)
    × (quantity_at 10 20 ran.0 ≡ pos 5)
    × (quantity_at 10 20 again.0 ≡ pos 2)
unfolding runs
two_sessions_take_twice = (refl, refl, refl)

stocked-IsSound : IsSound stocked
unfolding runs
stocked-IsSound =
    stock_in-IsSound (fresh 1) 7 3 delivery nothing
      (record {
        item_keys = tt;
        batch_keys = tt;
        reconciled = λ p s. refl;
        batches_nonneg = tt;
        availability = tt;
      })
      (record { item = tt; batch = tt }) refl

reverse-TakenBack_example :
    (h h' : Header) × (find_header 1 7 receipts.headers ≡ some h)
    × (h.status ≡ posted)
    × (find_header 1 7 (receipts_of ran.1).headers ≡ some h')
    × (h'.status ≡ reversed)
    × TakenBack (find_by_grn 1 receipts.items) stocked ran.0
    × (count_of ran.1 ≡ length (select has_product (find_by_grn 1 receipts.items)))
unfolding runs
reverse-TakenBack_example =
    reverse-TakenBack fresh key_text 7 3 100 1 "damaged" receipts stocked stocked-IsSound refl

reverse-once_example :
    reverse fresh key_text 7 3 110 1 "again" (receipts_of ran.1) ran.0
    ≡ (ran.0, err (business business_rule_violation))
unfolding runs
reverse-once_example =
    reverse-once fresh key_text 7 3 100 110 1 "damaged" "again" receipts stocked ran.0
      stocked-IsSound refl

reverse_in_transaction-twice_example :
    (reverse_in_transaction fresh key_text 7 3 110 1 "again" (receipts_of ran.1) ran.0
      ≡ (again.0, err (business business_rule_violation)))
    × ((p s : ℕ)
        → quantity_at p s again.0
            +ℤ taken_back p s (find_by_grn 1 receipts.items)
            +ℤ taken_back p s (find_by_grn 1 receipts.items)
          ≡ quantity_at p s stocked)
unfolding runs
reverse_in_transaction-twice_example =
    reverse_in_transaction-twice fresh key_text 7 3 100 110 1 "damaged" "again" receipts stocked
      stocked-IsSound refl refl
