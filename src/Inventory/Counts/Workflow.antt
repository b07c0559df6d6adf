-- ===== src/Inventory/Counts/Workflow.antt =====
-- src/modules/inventory/services/stock-count.service.ts. An operation reads the count first and then
-- opens a transaction, which is a definition of its own: its tables need not be the ones that the
-- count was read from.
use radha_backend.Prelude.{
  ℕ, String, suc, Option, none, some, List, [], ◌∷◌, if◌then◌else◌, length, or_else, not, Result,
  ok, err, ◌>>=◌, ◌>>◌, throw_if, not_found, business, business_rule_violation,
  concurrent_modification,
}
use radha_backend.Prelude.Int.{ℤ, pos, ◌+ℤ◌, ◌-ℤ◌, eqb_ℤ, abs}
use radha_backend.Prelude.Table.{update, create}
use radha_backend.Inventory.Types.{Fresh, AdjustStockInput, count_adjustment}
use radha_backend.Inventory.Repositories.{find_by_product_and_store}
use radha_backend.Inventory.Movement.{quantity_of}
use radha_backend.Inventory.Movement.Adjust.{adjust}
use radha_backend.Inventory.Counts.{
  in_progress, completed, cancelled, Count, Line, CountTables, StartStockCountInput,
  RecordLineInput, CountResult, line_key, same_count_status, find_by_id_in_tenant,
  update_status_guarded, find_by_count, upsert_for_product,
}

-- `start`: the key and the time are the database's
unfoldable pub start_count :
    ℕ → ℕ → ℕ → ℕ → StartStockCountInput → CountTables → CountTables × Count
start_count id now tenant user input t =
    let created : Count = record {
      id = id;
      tenant_id = tenant;
      store_id = input.store_id;
      status = in_progress;
      started_at = or_else input.started_at now;
      completed_at = none;
      cancelled_at = none;
      notes = input.notes;
      total_products = 0;
      variances = 0;
      total_variance_quantity = pos 0;
      adjustments_created = 0;
      created_by = user;
      updated_by = user;
    } in
    (record t { counts = create created t.counts }, created)

-- The count of this tenant, or an error.
abbrev pub existing_count : Option Count → Result Count
existing_count none = err not_found
existing_count (some c) = ok c

abbrev pub unless_in_progress : Count → Result (Unit {0})
unless_in_progress c =
    throw_if (not (same_count_status c.status in_progress)) (business business_rule_violation)

-- What is known of a product when it is counted, and the line's patch by a count again.
abbrev pub new_line : ℕ → ℕ → ℕ → Count → RecordLineInput → ℤ → Line
new_line id now tenant c input system = record {
  id = id;
  stock_count_id = c.id;
  tenant_id = tenant;
  store_id = c.store_id;
  product_id = input.product_id;
  system_quantity = system;
  counted_quantity = input.counted_quantity;
  variance = input.counted_quantity -ℤ system;
  notes = input.notes;
  adjustment_movement_id = none;
  created_at = now;
}

abbrev pub line_recounted : RecordLineInput → ℤ → Line → Line
line_recounted input system l = record l {
  system_quantity = system;
  counted_quantity = input.counted_quantity;
  variance = input.counted_quantity -ℤ system;
  notes = input.notes;
}

-- `recordLine`
unfoldable pub record_line_in_transaction :
    ℕ → ℕ → ℕ → Count → RecordLineInput → CountTables → Result (CountTables × Line)
record_line_in_transaction id now tenant c input t = do
  let system = quantity_of (find_by_product_and_store input.product_id c.store_id t.stock.items)
  line ←
      upsert_for_product c.id input.product_id (new_line id now tenant c input system)
        (line_recounted input system) t.lines
  ok (record t { lines = line.0 }, line.1)

unfoldable pub record_line :
    ℕ → ℕ → ℕ → ℕ → RecordLineInput → CountTables → Result (CountTables × Line)
record_line id now tenant count_id input t = do
  c ← existing_count (find_by_id_in_tenant count_id tenant t.counts)
  unless_in_progress c
  record_line_in_transaction id now tenant c input t

-- What `complete` counts in its loop.
pub record Tally : Type 0 where
  pub variances : ℕ
  pub total_variance_quantity : ℤ
  pub adjustments_created : ℕ

abbrev pub adjustment_of : (ℕ → ℤ → String) → Count → Line → AdjustStockInput
adjustment_of note c l = record {
  product_id = l.product_id;
  store_id = c.store_id;
  new_quantity = l.counted_quantity;
  reason = count_adjustment;
  notes = some (note c.id l.variance);
}

abbrev pub tallied : Line → Tally → Tally
tallied l k = record {
  variances = suc k.variances;
  total_variance_quantity = k.total_variance_quantity +ℤ abs l.variance;
  adjustments_created = suc k.adjustments_created;
}

abbrev pub no_variances : Tally
no_variances = record { variances = 0; total_variance_quantity = pos 0; adjustments_created = 0 }

-- The patch of a count that is completed, and of one that is cancelled.
abbrev pub count_completed : ℕ → ℕ → ℕ → Tally → Count → Count
count_completed now user total k c = record c {
  status = completed;
  completed_at = some now;
  total_products = total;
  variances = k.variances;
  total_variance_quantity = k.total_variance_quantity;
  adjustments_created = k.adjustments_created;
  updated_by = user;
}

abbrev pub count_cancelled : ℕ → ℕ → String → Count → Count
count_cancelled now user reason c = record c {
  status = cancelled;
  cancelled_at = some now;
  notes = some reason;
  updated_by = user;
}

abbrev pub changed_count : Option Count → Result Count
changed_count none = err (business concurrent_modification)
changed_count (some c) = ok c

-- `fr` supplies the keys of the adjustment of each line, and `note` the text of its notes.
module _ (fr : ℕ → Fresh) (note : ℕ → ℤ → String) (tenant user : ℕ) where
  -- one pass of the loop of `complete`
  unfoldable pub settle_line : Count → Line → CountTables → Tally → Result (CountTables × Tally)
  settle_line c l t k = if eqb_ℤ l.variance (pos 0) then ok (t, k) else (do
    adjusted ← adjust (fr l.id) tenant user (adjustment_of note c l) t.stock
    line ←
        update line_key l.id
          (λ (r : Line). record r { adjustment_movement_id = some adjusted.1.movement.id }) t.lines
    ok (record t { lines = line.0; stock = adjusted.0 }, tallied l k))

  unfoldable pub settle_lines :
      Count → List Line → CountTables → Tally → Result (CountTables × Tally)
  settle_lines c [] t k = ok (t, k)
  settle_lines c (l ∷ ls) t k = settle_line c l t k >>= λ done. settle_lines c ls done.0 done.1

  -- `complete`
  unfoldable pub complete_in_transaction :
      ℕ → Count → CountTables → Result (CountTables × CountResult)
  complete_in_transaction now c t = do
    let lines = find_by_count c.id t.lines
    settled ← settle_lines c lines t no_variances
    let k = settled.1
    let changed =
        update_status_guarded c.id (in_progress ∷ []) (count_completed now user (length lines) k)
          settled.0.counts
    updated ← changed_count changed.1
    ok (
      record settled.0 { counts = changed.0 },
      record {
        count_id = c.id;
        total_products = length lines;
        variances = k.variances;
        total_variance_quantity = k.total_variance_quantity;
        adjustments_created = k.adjustments_created;
      },
    )

  unfoldable pub complete_count : ℕ → ℕ → CountTables → Result (CountTables × CountResult)
  complete_count now count_id t = do
    c ← existing_count (find_by_id_in_tenant count_id tenant t.counts)
    throw_if (same_count_status c.status completed) (business business_rule_violation)
    throw_if (same_count_status c.status cancelled) (business business_rule_violation)
    complete_in_transaction now c t

-- `cancel`
unfoldable pub cancel_in_transaction :
    ℕ → ℕ → String → Count → CountTables → Result (CountTables × Count)
cancel_in_transaction now user reason c t = do
  let changed =
      update_status_guarded c.id (in_progress ∷ []) (count_cancelled now user reason) t.counts
  updated ← changed_count changed.1
  ok (record t { counts = changed.0 }, updated)

unfoldable pub cancel_count : ℕ → ℕ → ℕ → ℕ → String → CountTables → Result (CountTables × Count)
cancel_count now tenant count_id user reason t = do
  c ← existing_count (find_by_id_in_tenant count_id tenant t.counts)
  unless_in_progress c
  cancel_in_transaction now user reason c t
