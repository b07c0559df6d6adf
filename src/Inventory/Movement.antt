-- ===== src/Inventory/Movement.antt =====
-- src/modules/inventory/services/stock-movement.service.ts: what the three operations share. Each
-- runs in one transaction: it gives the new tables, or a failure and so no change. The children
-- hold the operations.
pub mod Inbound
pub mod Outbound
pub mod Adjust
use Prim.Native.String.{[] as end_of_text, ◌∷◌ as char_cons}
use Prim.Native.Char.{code}
use radha_backend.Prelude.{
  ℕ, String, zero, suc, Bool, true, false, not, ◌&&◌, ◌||◌, Option, none, some, List, [], ◌∷◌, ◌==◌,
  str_eq, if◌then◌else◌, is_some, or_else, or_option, Result, ok, err, ◌>>=◌, ◌>>◌, throw_if,
  not_found, business, value_out_of_range, insufficient_stock,
}
use radha_backend.Prelude.Int.{ℤ, pos, ◌+ℤ◌, ◌-ℤ◌, neg, leb_ℤ, ltb_ℤ, eqb_ℤ, min_ℤ}
use radha_backend.Prelude.Table.{update, create}
use radha_backend.Inventory.Types.{
  Reason, grn_post, grn_reversal, manual_in, sale, expired, damaged, returned, theft,
  count_adjustment, correction, inward, outward, adjustment, Item, Batch, Movement, Tables, Fresh,
  StockInInput, StockOutInput, AdjustStockInput, MovementResult,
}
use radha_backend.Inventory.Repositories.{
  find_by_product_and_store, find_by_batch_number, find_fifo_batches,
}
use radha_backend.Inventory.Alerts.{check_and_create}

-- `reasonToSourceType`
unfoldable pub reason_to_source_type : Reason → String
reason_to_source_type grn_post = "grn"
reason_to_source_type grn_reversal = "grn"
reason_to_source_type manual_in = "manual"
reason_to_source_type sale = "sale"
reason_to_source_type expired = "expiry"
reason_to_source_type damaged = "damage"
reason_to_source_type returned = "return"
reason_to_source_type theft = "shrinkage"
reason_to_source_type count_adjustment = "count"
reason_to_source_type correction = "manual"

-- A string that is absent or empty is falsy.
abbrev pub truthy : Option String → Option String
truthy none = none
truthy (some s) = if str_eq s "" then none else some s

-- the text before the first colon
unfoldable pub before_colon : String → String
before_colon end_of_text = end_of_text
before_colon (char_cons c s) =
    let rest = before_colon s in if code c == b':' then end_of_text else char_cons c rest

-- `ref.split(':')[1]`, where `ref` includes a colon
unfoldable pub second_piece : String → Option String
second_piece end_of_text = none
second_piece (char_cons c s) =
    let rest = second_piece s in if code c == b':' then some (before_colon s) else rest

abbrev pub referenced : String → Option String → Option String
referenced ref none = some ref
referenced ref (some after) = truthy (some after)

abbrev pub parse_truthy : Option String → Option String
parse_truthy none = none
parse_truthy (some ref) = referenced ref (second_piece ref)

-- `parseReference`
unfoldable pub parse_reference : Option String → Option String
parse_reference ref = parse_truthy (truthy ref)

abbrev pub quantity_of : Option Item → ℤ
quantity_of none = pos 0
quantity_of (some i) = i.quantity

-- The row of this tenant, or an error: a row of another tenant is reported as missing.
abbrev pub own_item : ℕ → Option Item → Result Item
own_item tenant none = err not_found
own_item tenant (some i) = if i.tenant_id == tenant then ok i else err not_found

-- What follows the writes of a movement: its row, the alert check and the result.
unfoldable pub record_movement : Fresh → Movement → Item → Tables → Result (Tables × MovementResult)
record_movement fr m i t = do
  let t' = record t { movements = create m t.movements }
  checked ← check_and_create fr i t'
  ok (
    checked.0,
    record {
      movement = m;
      inventory_item = i;
      new_quantity = m.quantity_after;
      alerts_generated = checked.1;
    },
  )
