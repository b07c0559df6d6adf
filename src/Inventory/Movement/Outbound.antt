-- ===== src/Inventory/Movement/Outbound.antt =====
-- src/modules/inventory/services/stock-movement.service.ts: `stockOut` and `applyStockOutInTx`.
use radha_backend.Prelude.{
  ℕ, String, true, false, Option, none, some, List, [], ◌∷◌, or_else, Result, ok, err, ◌>>=◌, ◌>>◌,
  throw_if, business, value_out_of_range, insufficient_stock,
}
use radha_backend.Prelude.Int.{ℤ, pos, ◌+ℤ◌, ◌-ℤ◌, neg, leb_ℤ, ltb_ℤ, eqb_ℤ, min_ℤ}
use radha_backend.Prelude.Table.{update}
use radha_backend.Inventory.Types.{
  outward, Item, Batch, Movement, Tables, Fresh, StockOutInput, MovementResult,
}
use radha_backend.Inventory.Repositories.{
  find_by_product_and_store, find_by_batch_number, find_fifo_batches,
}
use radha_backend.Inventory.Movement.{reason_to_source_type, truthy, own_item, record_movement}

abbrev pub set_quantity : ℤ → Batch → Batch
set_quantity q b = record b { quantity = q }

-- What a deduction leaves: the quantity still to take, the table and the first batch used.
pub record Deduction : Type 0 where
  pub remaining : ℤ
  pub batches : List Batch
  pub first : Option Batch

abbrev pub first_of_two : Option Batch → Batch → Option Batch
first_of_two none b = some b
first_of_two (some a) b = some a

-- The FIFO loop over the batches that the query returned.
unfoldable pub deduct_fifo : List Batch → Deduction → Result Deduction
deduct_fifo [] d = ok d
deduct_fifo (b ∷ bs) d = elim (eqb_ℤ d.remaining (pos 0)) [
  | true ↦ ok d
  | false ↦
      let took = min_ℤ b.quantity d.remaining in
      update (λ (c : Batch). c.id) b.id (set_quantity (b.quantity -ℤ took)) d.batches >>= λ r.
      deduct_fifo bs
        (record { remaining = d.remaining -ℤ took; batches = r.0; first = first_of_two d.first b })
]

-- The deduction from a batch that the input pins.
abbrev pub deduct_pinned : ℤ → Option Batch → List Batch → Result Deduction
deduct_pinned q none bs = err (business insufficient_stock)
deduct_pinned q (some b) bs = do
  throw_if (ltb_ℤ b.quantity q) (business insufficient_stock)
  r ← update (λ (c : Batch). c.id) b.id (set_quantity (b.quantity -ℤ q)) bs
  ok (record { remaining = pos 0; batches = r.0; first = some b })

unfoldable pub deduct : ℕ → ℕ → ℤ → Option String → List Batch → Result Deduction
deduct p s q (some n) bs = deduct_pinned q (find_by_batch_number p s n bs) bs
deduct p s q none bs = do
  d ← deduct_fifo (find_fifo_batches p s bs) (record { remaining = q; batches = bs; first = none })
  throw_if (ltb_ℤ (pos 0) d.remaining) (business insufficient_stock)
  ok d

abbrev pub batch_id : Option Batch → Option ℕ
batch_id none = none
batch_id (some b) = some b.id

-- `primaryBatchNumber`: the first batch's number replaces the input's where none is pinned
abbrev pub primary_number : StockOutInput → Option String → Option Batch → Option String
primary_number input (some n) first = input.batch_number
primary_number input none none = input.batch_number
primary_number input none (some b) = b.batch_number

abbrev pub movement_out : Fresh → ℕ → ℕ → StockOutInput → Item → ℤ → Option Batch → Movement
movement_out fr tenant user input i before first = record {
  id = fr.movement_id;
  tenant_id = tenant;
  store_id = input.store_id;
  product_id = input.product_id;
  inventory_item_id = i.id;
  type = outward;
  reason = input.reason;
  quantity = neg input.quantity;
  quantity_before = before;
  quantity_after = before -ℤ input.quantity;
  batch_number = primary_number input (truthy input.batch_number) first;
  inventory_batch_id = batch_id first;
  source_type = or_else input.source_type (reason_to_source_type input.reason);
  source_id = input.source_id;
  user_id = user;
  notes = input.notes;
}

-- The patch of the item's row by a stock-out.
abbrev pub item_out : ℕ → ℤ → Item → Item → Item
item_out now q existing i = record i {
  quantity = existing.quantity -ℤ q;
  available_quantity = existing.quantity -ℤ q -ℤ existing.reserved_quantity;
  total_out = existing.total_out +ℤ q;
  last_out_at = some now;
  last_movement_at = some now;
}

-- `applyStockOutInTx`
unfoldable pub apply_stock_out :
    Fresh → ℕ → ℕ → StockOutInput → Tables → Result (Tables × MovementResult)
apply_stock_out fr tenant user input t = do
  existing ← own_item tenant (find_by_product_and_store input.product_id input.store_id t.items)
  throw_if (ltb_ℤ existing.available_quantity input.quantity) (business insufficient_stock)
  d ← deduct input.product_id input.store_id input.quantity (truthy input.batch_number) t.batches
  item ← update (λ (j : Item). j.id) existing.id (item_out fr.now input.quantity existing) t.items
  record_movement fr (movement_out fr tenant user input item.1 existing.quantity d.first) item.1
      (record t { items = item.0; batches = d.batches })

-- `stockOut`
unfoldable pub stock_out : Fresh → ℕ → ℕ → StockOutInput → Tables → Result (Tables × MovementResult)
stock_out fr tenant user input t = do
  throw_if (leb_ℤ input.quantity (pos 0)) (business value_out_of_range)
  apply_stock_out fr tenant user input t
