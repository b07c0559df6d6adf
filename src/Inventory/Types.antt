-- ===== src/Inventory/Types.antt =====
-- src/modules/inventory/types/inventory.types.ts and the tables of src/db/schema: the rows, the
-- inputs and the state of the inventory. Keys are numbers (the program only compares them),
-- instants are milliseconds since 1970, quantities are signed as in the source. The cost columns,
-- the free `metadata` and the audit columns (`createdBy`, `updatedBy`, `updatedAt`) are left out:
-- no modelled operation reads them.
use radha_backend.Prelude.{ℕ, String, Option, List}
use radha_backend.Prelude.Int.{ℤ}

-- `StockMovementReason`
pub data Reason : Type 0 where
  grn_post grn_reversal manual_in sale expired damaged : Reason
  returned theft count_adjustment correction : Reason

-- `StockMovementType`
pub data MovementType : Type 0 where
  inward outward adjustment transfer : MovementType

-- `inventory_items`
pub record Item : Type 0 where
  pub id : ℕ
  pub tenant_id : ℕ
  pub store_id : ℕ
  pub product_id : ℕ
  pub quantity : ℤ
  pub reserved_quantity : ℤ
  pub available_quantity : ℤ
  pub low_stock_threshold : Option ℤ
  pub is_low_stock : ℕ
  pub last_movement_at : Option ℕ
  pub last_in_at : Option ℕ
  pub last_out_at : Option ℕ
  pub total_in : ℤ
  pub total_out : ℤ
  pub deleted_at : Option ℕ

-- `inventory_batches`
pub record Batch : Type 0 where
  pub id : ℕ
  pub inventory_item_id : ℕ
  pub tenant_id : ℕ
  pub store_id : ℕ
  pub product_id : ℕ
  pub batch_number : Option String
  pub quantity : ℤ
  pub expiry_date : Option ℕ
  pub manufacture_date : Option ℕ
  pub received_at : ℕ
  pub created_at : ℕ
  pub source_type : String
  pub source_id : Option String

-- `stock_movements`
pub record Movement : Type 0 where
  pub id : ℕ
  pub tenant_id : ℕ
  pub store_id : ℕ
  pub product_id : ℕ
  pub inventory_item_id : ℕ
  pub type : MovementType
  pub reason : Reason
  pub quantity : ℤ
  pub quantity_before : ℤ
  pub quantity_after : ℤ
  pub batch_number : Option String
  pub inventory_batch_id : Option ℕ
  pub source_type : String
  pub source_id : Option String
  pub user_id : ℕ
  pub notes : Option String

-- `low_stock_rules`
pub record Rule : Type 0 where
  pub id : ℕ
  pub tenant_id : ℕ
  pub store_id : ℕ
  pub product_id : Option ℕ
  pub category : Option String
  pub threshold : ℤ
  pub enabled : ℕ
  pub deleted_at : Option ℕ

-- `low_stock_alerts`
pub record Alert : Type 0 where
  pub id : ℕ
  pub tenant_id : ℕ
  pub store_id : ℕ
  pub product_id : ℕ
  pub inventory_item_id : ℕ
  pub threshold : ℤ
  pub current_quantity : ℤ
  pub notified_at : Option ℕ
  pub resolved_at : Option ℕ

-- The tables that a stock movement reads or writes.
pub record Tables : Type 0 where
  pub items : List Item
  pub batches : List Batch
  pub movements : List Movement
  pub rules : List Rule
  pub alerts : List Alert

-- The clock and the keys that the database generates for the rows that one operation inserts.
pub record Fresh : Type 0 where
  pub now : ℕ
  pub item_id : ℕ
  pub batch_id : ℕ
  pub movement_id : ℕ
  pub alert_id : ℕ

-- `StockInInput`
pub record StockInInput : Type 0 where
  pub product_id : ℕ
  pub store_id : ℕ
  pub quantity : ℤ
  pub reason : Reason
  pub batch_number : Option String
  pub expiry_date : Option ℕ
  pub manufacture_date : Option ℕ
  pub reference : Option String
  pub source_type : Option String
  pub source_id : Option String
  pub notes : Option String

-- `StockOutInput`
pub record StockOutInput : Type 0 where
  pub product_id : ℕ
  pub store_id : ℕ
  pub quantity : ℤ
  pub reason : Reason
  pub batch_number : Option String
  pub source_type : Option String
  pub source_id : Option String
  pub notes : Option String

-- `AdjustStockInput`
pub record AdjustStockInput : Type 0 where
  pub product_id : ℕ
  pub store_id : ℕ
  pub new_quantity : ℤ
  pub reason : Reason
  pub notes : Option String

-- `StockMovementResult`
pub record MovementResult : Type 0 where
  pub movement : Movement
  pub inventory_item : Item
  pub new_quantity : ℤ
  pub alerts_generated : ℕ
