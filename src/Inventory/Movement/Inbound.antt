-- ===== src/Inventory/Movement/Inbound.antt =====
-- src/modules/inventory/services/stock-movement.service.ts: `applyStockInInTx` and `upsertBatch`.
use radha_backend.Prelude.{
  ℕ, String, Bool, false, not, Option, none, some, List, ◌==◌, or_else, or_option, Result, ok,
  ◌>>=◌, ◌>>◌, throw_if, not_found, business, value_out_of_range,
}
use radha_backend.Prelude.Int.{ℤ, pos, ◌+ℤ◌, ◌-ℤ◌, leb_ℤ}
use radha_backend.Prelude.Table.{update, create}
use radha_backend.Inventory.Types.{
  inward, Item, Batch, Movement, Tables, Fresh, StockInInput, MovementResult,
}
use radha_backend.Inventory.Repositories.{find_by_product_and_store, find_by_batch_number}
use radha_backend.Inventory.Movement.{
  reason_to_source_type, truthy, parse_reference, quantity_of, record_movement,
}

abbrev pub new_item : Fresh → ℕ → StockInInput → Item
new_item fr tenant input = record {
  id = fr.item_id;
  tenant_id = tenant;
  store_id = input.store_id;
  product_id = input.product_id;
  quantity = input.quantity;
  reserved_quantity = pos 0;
  available_quantity = input.quantity;
  low_stock_threshold = none;
  is_low_stock = 0;
  last_movement_at = some fr.now;
  last_in_at = some fr.now;
  last_out_at = none;
  total_in = input.quantity;
  total_out = pos 0;
  deleted_at = none;
}

-- The patch of the item's row by a stock-in.
abbrev pub item_in : ℕ → ℤ → ℤ → Item → Item → Item
item_in now q after existing i = record i {
  quantity = after;
  available_quantity = after -ℤ existing.reserved_quantity;
  total_in = existing.total_in +ℤ q;
  last_in_at = some now;
  last_movement_at = some now;
}

-- The item's row is created, or updated where it exists.
abbrev pub put_item : Fresh → ℕ → StockInInput → Option Item → List Item → Result (List Item × Item)
put_item fr tenant input none items = let i = new_item fr tenant input in ok (create i items, i)
put_item fr tenant input (some existing) items =
    update (λ (j : Item). j.id) existing.id
      (item_in fr.now input.quantity (existing.quantity +ℤ input.quantity) existing) items

abbrev pub new_batch : Fresh → ℕ → StockInInput → ℕ → Batch
new_batch fr tenant input item_id = record {
  id = fr.batch_id;
  inventory_item_id = item_id;
  tenant_id = tenant;
  store_id = input.store_id;
  product_id = input.product_id;
  batch_number = truthy input.batch_number;
  quantity = input.quantity;
  expiry_date = input.expiry_date;
  manufacture_date = input.manufacture_date;
  received_at = fr.now;
  created_at = fr.now;
  source_type = or_else input.source_type (reason_to_source_type input.reason);
  source_id = or_option input.source_id (parse_reference input.reference);
}

-- The patch of a named batch that exists.
abbrev pub batch_in : StockInInput → Batch → Batch → Batch
batch_in input existing b = record b {
  quantity = existing.quantity +ℤ input.quantity;
  expiry_date = or_option input.expiry_date existing.expiry_date;
  manufacture_date = or_option input.manufacture_date existing.manufacture_date;
}

abbrev pub put_batch :
    Fresh → ℕ → StockInInput → ℕ → Option Batch → List Batch → Result (List Batch × Batch)
put_batch fr tenant input item_id (some existing) bs =
    update (λ (b : Batch). b.id) existing.id (batch_in input existing) bs
put_batch fr tenant input item_id none bs =
    let b = new_batch fr tenant input item_id in ok (create b bs, b)

-- the named batch, where the input names one
abbrev pub named_batch : ℕ → ℕ → Option String → List Batch → Option Batch
named_batch p s none bs = none
named_batch p s (some n) bs = find_by_batch_number p s n bs

-- `upsertBatch`
unfoldable pub upsert_batch :
    Fresh → ℕ → StockInInput → ℕ → List Batch → Result (List Batch × Batch)
upsert_batch fr tenant input item_id bs =
    put_batch fr tenant input item_id
      (named_batch input.product_id input.store_id (truthy input.batch_number) bs) bs

-- `existing && existing.tenantId !== tenantId`
abbrev pub foreign_tenant : Option Item → ℕ → Bool
foreign_tenant none tenant = false
foreign_tenant (some i) tenant = not (i.tenant_id == tenant)

abbrev pub movement_in : Fresh → ℕ → ℕ → StockInInput → Item → ℤ → Batch → Movement
movement_in fr tenant user input i before b = record {
  id = fr.movement_id;
  tenant_id = tenant;
  store_id = input.store_id;
  product_id = input.product_id;
  inventory_item_id = i.id;
  type = inward;
  reason = input.reason;
  quantity = input.quantity;
  quantity_before = before;
  quantity_after = before +ℤ input.quantity;
  batch_number = input.batch_number;
  inventory_batch_id = some b.id;
  source_type = or_else input.source_type (reason_to_source_type input.reason);
  source_id = or_option input.source_id (parse_reference input.reference);
  user_id = user;
  notes = input.notes;
}

-- `applyStockInInTx`, and `stockIn`, which only opens the transaction
unfoldable pub stock_in : Fresh → ℕ → ℕ → StockInInput → Tables → Result (Tables × MovementResult)
stock_in fr tenant user input t = do
  throw_if (leb_ℤ input.quantity (pos 0)) (business value_out_of_range)
  let existing = find_by_product_and_store input.product_id input.store_id t.items
  throw_if (foreign_tenant existing tenant) not_found
  item ← put_item fr tenant input existing t.items
  batch ← upsert_batch fr tenant input item.1.id t.batches
  record_movement fr (movement_in fr tenant user input item.1 (quantity_of existing) batch.1) item.1
      (record t { items = item.0; batches = batch.0 })
