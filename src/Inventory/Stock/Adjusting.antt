-- ===== src/Inventory/Stock/Adjusting.antt =====
-- src/modules/inventory/services/stock-movement.service.ts: what an adjustment that succeeds did.
use radha_backend.Prelude.{
  ℕ, ◌≡◌, ◌==◌, ◌&&◌, refl, ◌∙◌, some, arith, ok, >>=-ok_then, throw_if, throw_if-ok, business,
  false, value_out_of_range,
}
use radha_backend.Prelude.Int.{ℤ, pos, ◌≤ℤ◌, ltb_ℤ, ltb_ℤ-ge}
use radha_backend.Prelude.Table.{update_where, has_id}
use radha_backend.Prelude.Table.Laws.{Distinct, Distinct-update_where, update-ok, find-holds}
use radha_backend.Inventory.Types.{Item, Tables, Fresh, AdjustStockInput, MovementResult}
use radha_backend.Inventory.Repositories.{item_at, find_by_product_and_store}
use radha_backend.Inventory.Movement.{quantity_of, own_item}
use radha_backend.Inventory.Movement.Adjust.{item_adjusted, movement_adjusted, adjust}
use radha_backend.Inventory.Stock.Labels.{
  item_key, Recorded, record_movement-Recorded, Relabelled-Distinct, Relabelled-quantity,
}
use radha_backend.Inventory.Stock.Sound.{
  KeepsItem, quantity-patch, quantity-patch_other, found→find_by_id,
}
use radha_backend.Inventory.Stock.StockOut.{own_item-ok}

pub item_adjusted-KeepsItem :
    (now : ℕ) (q : ℤ) (existing : Item) → KeepsItem (item_adjusted now q existing)
item_adjusted-KeepsItem now q existing = record {
  id = λ i. refl;
  product = λ i. refl;
  store = λ i. refl;
  deleted = λ i. refl;
}

-- The item that an adjustment found, and its writes.
pub record AdjustRun (fr : Fresh) (tenant user : ℕ) (input : AdjustStockInput) (t t' : Tables)
    (r : MovementResult) : Type 0 where
  pub existing : Item
  pub found : find_by_product_and_store input.product_id input.store_id t.items ≡ some existing
  pub owned : existing.tenant_id ≡ tenant
  pub nonneg : pos 0 ≤ℤ input.new_quantity
  pub recorded :
      let write = item_adjusted fr.now input.new_quantity existing in
      Recorded
        (movement_adjusted fr tenant user input (write existing) existing.quantity)
        (write existing)
        (record t { items = update_where (has_id item_key existing.id) write t.items })
        t'
        r

pub adjust-AdjustRun :
    (fr : Fresh) (tenant user : ℕ) (input : AdjustStockInput) (t : Tables) {t' : Tables}
    {r : MovementResult}
    → Distinct item_key t.items
    → adjust fr tenant user input t ≡ ok (t', r)
    → AdjustRun fr tenant user input t t' r
unfolding adjust
adjust-AdjustRun fr tenant user input t {t'} keys e =
    >>=-ok_then
      (own_item tenant (find_by_product_and_store input.product_id input.store_id t.items)) _ e
      λ i owned e1.
        >>=-ok_then (throw_if (ltb_ℤ input.new_quantity (pos 0)) (business value_out_of_range)) _ e1
          λ _ tested e2.
            let own = own_item-ok tenant _ owned in
            let known =
              update-ok item_key i.id (item_adjusted fr.now input.new_quantity i) t.items
                (λ j. refl) (found→find_by_id input.product_id input.store_id t.items keys own.0) in
            record {
              existing = i;
              found = own.0;
              owned = own.1;
              nonneg = ltb_ℤ-ge input.new_quantity (pos 0) (throw_if-ok _ _ tested);
              recorded = record_movement-Recorded fr _ _ _ t' (rw known at e2);
            }

-- The quantity that the item of a product and store holds.
abbrev pub quantity_at : ℕ → ℕ → Tables → ℤ
quantity_at p s t = quantity_of (find_by_product_and_store p s t.items)

module _ (fr : Fresh) (tenant user : ℕ) (input : AdjustStockInput) (t t' : Tables)
    {r : MovementResult} (keys : Distinct item_key t.items)
    (run : AdjustRun fr tenant user input t t' r) where
  pub adjusted-Distinct : Distinct item_key t'.items
  adjusted-Distinct = Relabelled-Distinct run.recorded.items (
      Distinct-update_where item_key (has_id item_key run.existing.id)
        (item_adjusted fr.now input.new_quantity run.existing) t.items (λ j. refl) keys)

  pub adjusted-here : quantity_at input.product_id input.store_id t' ≡ input.new_quantity
  adjusted-here =
      Relabelled-quantity input.product_id input.store_id run.recorded.items
      ∙ quantity-patch (item_adjusted fr.now input.new_quantity run.existing)
          (item_adjusted-KeepsItem fr.now input.new_quantity run.existing) input.product_id
          input.store_id t.items run.found

  pub adjusted-there :
      (p s : ℕ) → item_at p s run.existing ≡ false → quantity_at p s t' ≡ quantity_at p s t
  adjusted-there p s away =
      Relabelled-quantity p s run.recorded.items
      ∙ quantity-patch_other (item_adjusted fr.now input.new_quantity run.existing)
          (item_adjusted-KeepsItem fr.now input.new_quantity run.existing) input.product_id
          input.store_id p s t.items keys run.found away

  -- The item adjusted is at no other place.
  pub adjusted-elsewhere :
      (p s : ℕ)
      → ((input.product_id == p) && (input.store_id == s)) ≡ false
      → item_at p s run.existing ≡ false
  unfolding item_at find_by_product_and_store
  adjusted-elsewhere p s other =
      let here = find-holds (item_at input.product_id input.store_id) t.items run.found in
      ground (arith, here, other)
