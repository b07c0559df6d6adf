-- ===== src/Inventory/Movement/Adjust.antt =====
-- src/modules/inventory/services/stock-movement.service.ts: `adjust` and `applyAdjustInTx`.
use radha_backend.Prelude.{
  ℕ, none, some, Result, ◌>>=◌, ◌>>◌, throw_if, business, value_out_of_range,
}
use radha_backend.Prelude.Int.{ℤ, pos, ◌-ℤ◌, ltb_ℤ}
use radha_backend.Prelude.Table.{update}
use radha_backend.Inventory.Types.{
  adjustment, Item, Movement, Tables, Fresh, AdjustStockInput, MovementResult,
}
use radha_backend.Inventory.Repositories.{find_by_product_and_store}
use radha_backend.Inventory.Movement.{reason_to_source_type, own_item, record_movement}

-- The patch of the item's row by an adjustment.
abbrev pub item_adjusted : ℕ → ℤ → Item → Item → Item
item_adjusted now q existing i = record i {
  quantity = q;
  available_quantity = q -ℤ existing.reserved_quantity;
  last_movement_at = some now;
}

abbrev pub movement_adjusted : Fresh → ℕ → ℕ → AdjustStockInput → Item → ℤ → Movement
movement_adjusted fr tenant user input i before = record {
  id = fr.movement_id;
  tenant_id = tenant;
  store_id = input.store_id;
  product_id = input.product_id;
  inventory_item_id = i.id;
  type = adjustment;
  reason = input.reason;
  quantity = input.new_quantity -ℤ before;
  quantity_before = before;
  quantity_after = input.new_quantity;
  batch_number = none;
  inventory_batch_id = none;
  source_type = reason_to_source_type input.reason;
  source_id = none;
  user_id = user;
  notes = input.notes;
}

-- `applyAdjustInTx`, and `adjust`, which only opens the transaction
unfoldable pub adjust : Fresh → ℕ → ℕ → AdjustStockInput → Tables → Result (Tables × MovementResult)
adjust fr tenant user input t = do
  existing ← own_item tenant (find_by_product_and_store input.product_id input.store_id t.items)
  throw_if (ltb_ℤ input.new_quantity (pos 0)) (business value_out_of_range)
  item ←
      update (λ (j : Item). j.id) existing.id (item_adjusted fr.now input.new_quantity existing)
        t.items
  record_movement fr (movement_adjusted fr tenant user input item.1 existing.quantity) item.1
      (record t { items = item.0 })
