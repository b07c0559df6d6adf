-- ===== src/Inventory/Service.antt =====
-- src/modules/inventory/inventory.service.ts: `applyInbound` and `applyOutbound`, which goods receipts
-- call. They go through `stockIn` and `stockOut`, which add an audit entry, and each of these opens a
-- transaction of its own. `key_text` gives the text of a key.
use Prim.Native.String.{◌++◌ as append}
use radha_backend.Prelude.{ℕ, String, Option, some, none, Result, ok, ◌>>=◌}
use radha_backend.Prelude.Int.{ℤ}
use radha_backend.Inventory.Types.{
  Reason, grn_post, grn_reversal, returned, Tables, Fresh, StockInInput, StockOutInput,
}
use radha_backend.Inventory.Movement.Inbound.{stock_in}
use radha_backend.Inventory.Movement.Outbound.{stock_out}

pub data Source : Type 0 where
  from_grn from_reversal : Source

-- `InventoryMovementRequest`, without the cost
pub record MovementRequest : Type 0 where
  pub tenant_id : ℕ
  pub store_id : ℕ
  pub product_id : ℕ
  pub quantity : ℤ
  pub batch_number : Option String
  pub expiry_date : Option ℕ
  pub source : Source
  pub source_id : ℕ
  pub source_line_id : ℕ
  pub actor_id : ℕ

-- `InventoryMovementResult`
pub record MovementReceipt : Type 0 where
  pub inventory_item_id : ℕ
  pub stock_movement_id : ℕ
  pub new_quantity : ℤ

abbrev pub inbound_reason : Source → Reason
inbound_reason from_grn = grn_post
inbound_reason from_reversal = returned

module _ (key_text : ℕ → String) where
  abbrev pub inbound_input : MovementRequest → StockInInput
  inbound_input req = record {
    product_id = req.product_id;
    store_id = req.store_id;
    quantity = req.quantity;
    reason = inbound_reason req.source;
    batch_number = req.batch_number;
    expiry_date = req.expiry_date;
    manufacture_date = none;
    reference = none;
    source_type = some "grn";
    source_id = some (key_text req.source_id);
    notes = some (append "GRN line " (key_text req.source_line_id));
  }

  abbrev pub outbound_input : MovementRequest → StockOutInput
  outbound_input req = record {
    product_id = req.product_id;
    store_id = req.store_id;
    quantity = req.quantity;
    reason = grn_reversal;
    batch_number = req.batch_number;
    source_type = some "grn";
    source_id = some (key_text req.source_id);
    notes = some (append "GRN reversal line " (key_text req.source_line_id));
  }

  -- `applyInbound`
  unfoldable pub apply_inbound :
      Fresh → MovementRequest → Tables → Result (Tables × MovementReceipt)
  apply_inbound fr req t = do
    result ← stock_in fr req.tenant_id req.actor_id (inbound_input req) t
    ok (
      result.0,
      record {
        inventory_item_id = result.1.inventory_item.id;
        stock_movement_id = result.1.movement.id;
        new_quantity = result.1.new_quantity;
      },
    )

  -- `applyOutbound`
  unfoldable pub apply_outbound :
      Fresh → MovementRequest → Tables → Result (Tables × MovementReceipt)
  apply_outbound fr req t = do
    result ← stock_out fr req.tenant_id req.actor_id (outbound_input req) t
    ok (
      result.0,
      record {
        inventory_item_id = result.1.inventory_item.id;
        stock_movement_id = result.1.movement.id;
        new_quantity = result.1.new_quantity;
      },
    )
