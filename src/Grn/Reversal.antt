-- ===== src/Grn/Reversal.antt =====
-- src/modules/grn/services/grn-reversal.service.ts. The movements of stock go through the inventory
-- service, which commits each in a transaction of its own: when the reversal's transaction fails, the
-- tables of receipts are rolled back and the stock is not. So an operation gives the tables of the
-- stock in every case, and those of the receipts where it succeeds.
pub mod Stock
pub mod Twice
use radha_backend.Prelude.{
  ℕ, String, suc, Bool, not, Option, none, some, List, [], ◌∷◌, Result, ok, err, ◌>>=◌, ◌>>◌,
  throw_if, not_found, business, business_rule_violation, is_some, if◌then◌else◌,
}
use radha_backend.Prelude.Table.{create}
use radha_backend.Inventory.Types.{Tables, Fresh}
use radha_backend.Inventory.Service.{MovementRequest, from_reversal, apply_outbound}
use radha_backend.Grn.{
  posted, reversed, reversed_event, Header, GrnItem, GrnEvent, GrnTables, same_grn_status,
  find_header, update_header_guarded, find_by_grn,
}

-- `ReverseResult`
pub record ReverseResult : Type 0 where
  pub grn : Header
  pub reversed_at : ℕ
  pub inventory_reverted : ℕ
  pub expiry_records_reverted : ℕ

-- What the loop counts.
pub record Reverted : Type 0 where
  pub inventory : ℕ
  pub expiry_records : ℕ

abbrev pub none_reverted : Reverted
none_reverted = record { inventory = 0; expiry_records = 0 }

abbrev pub counted_line : GrnItem → Reverted → Reverted
counted_line l k = record {
  inventory = suc k.inventory;
  expiry_records = if is_some l.expiry_record_id then suc k.expiry_records else k.expiry_records;
}

abbrev pub to_reversed : ℕ → ℕ → String → Header → Header
to_reversed now user reason h = record h {
  status = reversed;
  reversed_at = some now;
  reversed_by = some user;
  reversal_reason = some reason;
}

abbrev pub changed_header : Option Header → Result Header
changed_header none = err (business business_rule_violation)
changed_header (some h) = ok h

abbrev pub existing_header : Option Header → Result Header
existing_header none = err not_found
existing_header (some h) = ok h

-- `fr` supplies the keys of the movement of each line, and `key_text` the text of a key.
module _ (fr : ℕ → Fresh) (key_text : ℕ → String) (tenant user : ℕ) where
  abbrev pub reversal_request : ℕ → ℕ → GrnItem → MovementRequest
  reversal_request grn_id p l = record {
    tenant_id = tenant;
    store_id = l.store_id;
    product_id = p;
    quantity = l.quantity;
    batch_number = l.batch_number;
    expiry_date = l.expiry_date;
    source = from_reversal;
    source_id = grn_id;
    source_line_id = l.id;
    actor_id = user;
  }

  -- one pass of the loop: a line with no product was never posted
  abbrev pub revert_product :
      ℕ → GrnItem → Option ℕ → Tables → Reverted → Result (Tables × Reverted)
  revert_product grn_id l none inv k = ok (inv, k)
  revert_product grn_id l (some p) inv k = do
    applied ← apply_outbound key_text (fr l.id) (reversal_request grn_id p l) inv
    ok (applied.0, counted_line l k)

  unfoldable pub revert_line : ℕ → GrnItem → Tables → Reverted → Result (Tables × Reverted)
  revert_line grn_id l inv k = revert_product grn_id l l.product_id inv k

  -- the loop, with the stock that its passes have committed
  unfoldable pub revert_lines : ℕ → List GrnItem → Tables → Reverted → Tables × Result Reverted
  revert_lines grn_id [] inv k = (inv, ok k)
  revert_lines grn_id (l ∷ ls) inv k = elim (revert_line grn_id l inv k) [
    | err e ↦ (inv, err e)
    | ok done ↦ revert_lines grn_id ls done.0 done.1
  ]

  -- what `reverseInTransaction` does after the loop
  unfoldable pub finish_reversal :
      ℕ → ℕ → String → GrnTables → Reverted → Result (GrnTables × ReverseResult)
  finish_reversal now grn_id reason t k = do
    let changed = update_header_guarded grn_id (posted ∷ []) (to_reversed now user reason) t.headers
    updated ← changed_header changed.1
    let event : GrnEvent = record {
      grn_id = grn_id;
      tenant_id = tenant;
      type = reversed_event;
      actor_id = user;
      notes = some reason;
    }
    ok (
      record t { headers = changed.0; events = create event t.events },
      record {
        grn = updated;
        reversed_at = now;
        inventory_reverted = k.inventory;
        expiry_records_reverted = k.expiry_records;
      },
    )

  -- `reverseInTransaction`
  unfoldable pub reverse_in_transaction :
      ℕ → ℕ → String → GrnTables → Tables → Tables × Result (GrnTables × ReverseResult)
  reverse_in_transaction now grn_id reason t inv =
      let (inv', reverted) = revert_lines grn_id (find_by_grn grn_id t.items) inv none_reverted in
      (inv', reverted >>= finish_reversal now grn_id reason t)

  -- The tests of `reverse` before the transaction.
  abbrev pub reversible : ℕ → GrnTables → Result Header
  reversible grn_id t = do
    grn ← existing_header (find_header grn_id tenant t.headers)
    throw_if (same_grn_status grn.status reversed) (business business_rule_violation)
    throw_if (not (same_grn_status grn.status posted)) (business business_rule_violation)
    ok grn

  -- `reverse`
  unfoldable pub reverse :
      ℕ → ℕ → String → GrnTables → Tables → Tables × Result (GrnTables × ReverseResult)
  reverse now grn_id reason t inv = elim (reversible grn_id t) [
    | err e ↦ (inv, err e)
    | ok grn ↦ reverse_in_transaction now grn.id reason t inv
  ]
