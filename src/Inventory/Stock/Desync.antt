-- ===== src/Inventory/Stock/Desync.antt =====
-- src/modules/inventory/services/stock-movement.service.ts: an adjustment writes the item and not
-- its batches.
use radha_backend.Prelude.{
  ℕ, ◌≡◌, refl, sym, ap, ◌∙◌, none, some, List, arith, inl, inr, Bool-cases, ==_refl, All, ◌==◌, ok,
  err, ok->>=, err->>=, throw_if, business, value_out_of_range, insufficient_stock,
}
use radha_backend.Prelude.Int.{
  ℤ, pos, ◌-ℤ◌, ◌≤ℤ◌, ◌<ℤ◌, leb_ℤ, ltb_ℤ, int_laws, parts_of_eq, ltb_ℤ-true, ltb_ℤ-false,
  leb_ℤ-false,
}
use radha_backend.Prelude.Table.{has_id}
use radha_backend.Prelude.Table.Laws.{Distinct, find-update_where}
use radha_backend.Inventory.Types.{
  Item, Batch, Tables, Fresh, AdjustStockInput, StockOutInput, MovementResult,
}
use radha_backend.Inventory.Repositories.{
  item_at, find_by_product_and_store, find_fifo_batches, sum_quantity,
}
use radha_backend.Inventory.Alerts.{mark_low}
use radha_backend.Inventory.Movement.{quantity_of, truthy, own_item}
use radha_backend.Inventory.Movement.Adjust.{item_adjusted, adjust}
use radha_backend.Inventory.Movement.Outbound.{Deduction, deduct, stock_out, apply_stock_out}
use radha_backend.Inventory.Stock.Sums.{batch_key, sum-nonneg}
use radha_backend.Inventory.Stock.Labels.{item_key, Relabelled, same, labelled}
use radha_backend.Inventory.Stock.Fifo.{NonNeg, deduct_fifo-Drained}
use radha_backend.Inventory.Stock.Snapshot.{find_fifo_batches-IsSnapshot}
use radha_backend.Inventory.Stock.Sound.{IsSound, patch-find}
use radha_backend.Inventory.Stock.Adjusting.{adjust-AdjustRun, item_adjusted-KeepsItem}
use radha_backend.Inventory.Stock.Progress.{own_item-own}

-- Two rows that differ in their low-stock labels at most.
abbrev SameStock : Item → Item → Type 0
SameStock i j =
    (j.id ≡ i.id)
    × (j.tenant_id ≡ i.tenant_id)
    × (j.quantity ≡ i.quantity)
    × (j.available_quantity ≡ i.available_quantity)

Relabelled-found :
    (p s : ℕ) {items items' : List Item} {i : Item}
    → Relabelled items items'
    → find_by_product_and_store p s items ≡ some i
    → (j : Item) × (find_by_product_and_store p s items' ≡ some j) × SameStock i j
unfolding find_by_product_and_store item_at
Relabelled-found p s {i = i} same e = (i, e, (refl, refl, refl, refl))
Relabelled-found p s {items} {i = i} (labelled id flag threshold) e =
    elim (Bool-cases (i.id == id)) [
      | inl hit ↦ (
        mark_low flag threshold i,
        find-update_where (item_at p s) (has_id item_key id) (mark_low flag threshold) items
              (λ r. refl)
            ∙ rw e (rw hit refl),
        (refl, refl, refl, refl),
      )
      | inr miss ↦ (
        i,
        find-update_where (item_at p s) (has_id item_key id) (mark_low flag threshold) items
              (λ r. refl)
            ∙ rw e (rw miss refl),
        (refl, refl, refl, refl),
      )
    ]

-- What an adjustment to `q` leaves of the item `i` at (p, s), and of the batches.
pub record Adjusted (p s : ℕ) (q : ℤ) (i : Item) (t t' : Tables) : Type 0 where
  pub batches : t'.batches ≡ t.batches
  pub item : Item
  pub found : find_by_product_and_store p s t'.items ≡ some item
  pub tenant : item.tenant_id ≡ i.tenant_id
  pub quantity : item.quantity ≡ q
  pub available : item.available_quantity ≡ q -ℤ i.reserved_quantity

-- An adjustment that succeeds on sound tables sets the item's quantity and availability, and
-- leaves every batch as it was.
pub adjust-Adjusted :
    (fr : Fresh) (tenant user : ℕ) (input : AdjustStockInput) (t : Tables) {t' : Tables}
    {r : MovementResult}
    → IsSound t
    → adjust fr tenant user input t ≡ ok (t', r)
    → (i : Item) × (find_by_product_and_store input.product_id input.store_id t.items ≡ some i)
      × (i.tenant_id ≡ tenant)
      × (pos 0 ≤ℤ input.new_quantity)
      × Adjusted input.product_id input.store_id input.new_quantity i t t'
adjust-Adjusted fr tenant user input t {t'} sound e =
    let run = adjust-AdjustRun fr tenant user input t sound.item_keys e in
    let write = item_adjusted fr.now input.new_quantity run.existing in
    let keeps = item_adjusted-KeepsItem fr.now input.new_quantity run.existing in
    let written =
      patch-find write keeps input.product_id input.store_id run.existing.id t.items
      ∙ rw run.found (rw (==_refl run.existing.id) refl) in
    let (j, found, like) =
      Relabelled-found input.product_id input.store_id {i = write run.existing} run.recorded.items
        written in
    (
      run.existing,
      run.found,
      run.owned,
      run.nonneg,
      record {
        batches = run.recorded.batches;
        item = j;
        found = found;
        tenant = like.1;
        quantity = like.2;
        available = like.3;
      },
    )

deduct-short :
    (p s : ℕ) (q : ℤ) (bs : List Batch)
    → Distinct batch_key bs
    → All NonNeg bs
    → sum_quantity p s bs <ℤ q
    → deduct p s q none bs ≡ err (business insufficient_stock)
unfolding deduct
deduct-short p s q bs u nn short =
    let start : Deduction = record { remaining = q; batches = bs; first = none } in
    let snap = find_fifo_batches-IsSnapshot p s bs u nn in
    let whole = sum-nonneg p s bs nn in
    let (d', run, drained) =
      deduct_fifo-Drained p s (find_fifo_batches p s bs) start u nn (omega (arith, whole, short))
        snap.distinct snap.current in
    let after = sum-nonneg p s d'.batches drained.nonneg in
    let left : pos 0 <ℤ d'.remaining = omega (int_laws, parts_of_eq drained.taken, short, after) in
    rw run (rw (ltb_ℤ-true (pos 0) d'.remaining left))

-- After an adjustment on sound tables that succeeds and raises the quantity of an item with nothing
-- reserved, the tables show the new quantity as available, and the tenant's stock-out of that
-- quantity that pins no batch is refused for insufficient stock: the batches still hold the old
-- quantity.
pub adjust-strands_stock :
    (fr fr' : Fresh) (tenant user : ℕ) (input : AdjustStockInput) (out : StockOutInput) (t : Tables)
    {t' : Tables} {r : MovementResult} {i : Item}
    → IsSound t
    → adjust fr tenant user input t ≡ ok (t', r)
    → find_by_product_and_store input.product_id input.store_id t.items ≡ some i
    → i.reserved_quantity ≡ pos 0
    → i.quantity <ℤ input.new_quantity
    → out.product_id ≡ input.product_id
    → out.store_id ≡ input.store_id
    → out.quantity ≡ input.new_quantity
    → truthy out.batch_number ≡ none
    → ((j : Item) × (find_by_product_and_store input.product_id input.store_id t'.items ≡ some j)
        × (j.available_quantity ≡ input.new_quantity))
      × (stock_out fr' tenant user out t' ≡ err (business insufficient_stock))
unfolding stock_out apply_stock_out
adjust-strands_stock fr fr' tenant user input out t {t'} {i} sound e found none_reserved more same_p
      same_s same_q unpinned =
    let (k, found', own, nonneg, done) = adjust-Adjusted fr tenant user input t sound e in
    let same_row : k ≡ i = ground (arith, found, found') in
    let free : done.item.available_quantity ≡ input.new_quantity =
      done.available ∙ rw (same_row, none_reserved) (omega int_laws) in
    let whole : i.quantity ≡ sum_quantity input.product_id input.store_id t.batches =
      ap quantity_of (sym found) ∙ sound.reconciled input.product_id input.store_id in
    let short =
      deduct-short input.product_id input.store_id input.new_quantity t.batches sound.batch_keys
        sound.batches_nonneg (omega (arith, more, parts_of_eq whole)) in
    let some_q : pos 0 <ℤ input.new_quantity = omega (
      arith,
      more,
      parts_of_eq whole,
      sum-nonneg input.product_id input.store_id t.batches sound.batches_nonneg,
    ) in
    (
      (done.item, done.found, free),
      ok->>= (throw_if (leb_ℤ out.quantity (pos 0)) (business value_out_of_range)) _ {a = tt}
          (rw same_q (rw (leb_ℤ-false input.new_quantity (pos 0) some_q)))
          (ok->>= (own_item tenant (find_by_product_and_store out.product_id out.store_id t'.items))
            _ {a = done.item}
            (own_item-own tenant done.item (rw (same_p, same_s) done.found) (done.tenant ∙ own))
            (ok->>=
              (throw_if (ltb_ℤ done.item.available_quantity out.quantity)
                (business insufficient_stock))
              _ {a = tt}
              (rw (same_q, free)
                (rw (ltb_ℤ-false input.new_quantity input.new_quantity (omega arith))))
              (err->>=
                (deduct out.product_id out.store_id out.quantity (truthy out.batch_number)
                  t'.batches)
                _ (rw (same_p, same_s, same_q, unpinned, done.batches) short)))),
    )
