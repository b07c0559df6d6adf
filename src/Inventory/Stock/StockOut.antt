-- ===== src/Inventory/Stock/StockOut.antt =====
-- src/modules/inventory/services/stock-movement.service.ts: a stock-out that succeeds keeps the
-- tables sound, and takes its quantity from the batches and from the item alike.
use radha_backend.Prelude.{
  ℕ, ◌≡◌, refl, sym, subst, ap, ◌∙◌, true, false, Option, none, some, List, arith, inl, inr,
  Bool-cases, ==_iff, ◌==◌, ok, >>=-ok_then, throw_if, throw_if-ok, business, value_out_of_range,
  insufficient_stock,
}
use radha_backend.Prelude.Int.{
  ℤ, pos, ◌+ℤ◌, ◌-ℤ◌, ◌≤ℤ◌, ◌<ℤ◌, ltb_ℤ, leb_ℤ, int_laws, parts_of_eq, ltb_ℤ-ge, leb_ℤ-gt,
}
use radha_backend.Prelude.Table.{update_where, has_id}
use radha_backend.Prelude.Table.Laws.{
  Distinct, find-holds, update-ok, Distinct-update_where, All-find, All-update_id,
}
use radha_backend.Inventory.Types.{Item, Tables, Fresh, StockOutInput, MovementResult}
use radha_backend.Inventory.Repositories.{item_at, find_by_product_and_store, sum_quantity}
use radha_backend.Inventory.Movement.{quantity_of, own_item, truthy}
use radha_backend.Inventory.Movement.Outbound.{
  Deduction, deduct, item_out, movement_out, apply_stock_out, stock_out,
}
use radha_backend.Inventory.Stock.Labels.{
  item_key, Recorded, record_movement-Recorded, Relabelled-Distinct, Relabelled-quantity,
  Relabelled-All,
}
use radha_backend.Inventory.Stock.Fifo.{IsOther}
use radha_backend.Inventory.Stock.Outflow.{Deducted, deduct-Deducted}
use radha_backend.Inventory.Stock.Sound.{
  IsSound, IsAvailable, KeepsItem, IsOther-of, same_place, quantity-patch, quantity-patch_other,
  found→find_by_id,
}

-- The intermediate values of a stock-out that succeeded.
pub record OutRun (fr : Fresh) (tenant user : ℕ) (input : StockOutInput) (t t' : Tables)
    (r : MovementResult) : Type 0 where
  pub existing : Item
  pub deduction : Deduction
  pub positive : pos 0 <ℤ input.quantity
  pub found : find_by_product_and_store input.product_id input.store_id t.items ≡ some existing
  pub owned : existing.tenant_id ≡ tenant
  pub enough : input.quantity ≤ℤ existing.available_quantity
  pub deducted :
      deduct input.product_id input.store_id input.quantity (truthy input.batch_number) t.batches
      ≡ ok deduction
  pub recorded :
      let items =
        update_where
          (has_id item_key existing.id)
          (item_out fr.now input.quantity existing)
          t.items in
      let item = item_out fr.now input.quantity existing existing in
      Recorded
        (movement_out fr tenant user input item existing.quantity deduction.first)
        item
        (record t { items = items; batches = deduction.batches })
        t'
        r

pub own_item-ok :
    (tenant : ℕ) (o : Option Item) {i : Item}
    → own_item tenant o ≡ ok i
    → (o ≡ some i) × (i.tenant_id ≡ tenant)
own_item-ok tenant none h = cc
own_item-ok tenant (some j) {i} h = elim (Bool-cases (j.tenant_id == tenant)) [
  | inl e ↦
      let same : j ≡ i = ground arith in
      (
        ap some same,
        subst (λ (x : Item). x.tenant_id ≡ tenant) same ((==_iff j.tenant_id tenant).0 e),
      )
  | inr e ↦ absurd (ground arith)
]

pub stock_out-OutRun :
    (fr : Fresh) (tenant user : ℕ) (input : StockOutInput) (t t' : Tables) {r : MovementResult}
    → Distinct item_key t.items
    → stock_out fr tenant user input t ≡ ok (t', r)
    → OutRun fr tenant user input t t' r
unfolding stock_out apply_stock_out
stock_out-OutRun fr tenant user input t t' {r} u e =
    >>=-ok_then (throw_if (leb_ℤ input.quantity (pos 0)) (business value_out_of_range)) _ e
      λ _ positive e1.
        >>=-ok_then
          (own_item tenant (find_by_product_and_store input.product_id input.store_id t.items)) _ e1
          λ existing owned e2.
            >>=-ok_then
              (throw_if (ltb_ℤ existing.available_quantity input.quantity)
                (business insufficient_stock))
              _ e2
              λ _ enough e3.
                >>=-ok_then
                  (deduct input.product_id input.store_id input.quantity (truthy input.batch_number)
                    t.batches)
                  _ e3
                  λ d deducted e4.
                    let own = own_item-ok tenant _ owned in
                    let known =
                      update-ok item_key existing.id (item_out fr.now input.quantity existing)
                        t.items (λ j. refl) (found→find_by_id _ _ t.items u own.0) in
                    record {
                      existing = existing;
                      deduction = d;
                      positive = leb_ℤ-gt input.quantity (pos 0) (throw_if-ok _ _ positive);
                      found = own.0;
                      owned = own.1;
                      enough =
                          ltb_ℤ-ge existing.available_quantity input.quantity
                            (throw_if-ok _ _ enough);
                      deducted = deducted;
                      recorded = record_movement-Recorded fr _ _ _ t' (rw known at e4);
                    }

item_out-KeepsItem : (now : ℕ) (q : ℤ) (existing : Item) → KeepsItem (item_out now q existing)
item_out-KeepsItem now q existing = record {
  id = λ i. refl;
  product = λ i. refl;
  store = λ i. refl;
  deleted = λ i. refl;
}

-- What a stock-out of `q` from (p, s) leaves, with the item's quantity before.
pub record TakenOut (p s : ℕ) (q before : ℤ) (t t' : Tables) : Type 0 where
  pub item_quantity : quantity_of (find_by_product_and_store p s t'.items) +ℤ q ≡ before
  pub batch_quantity : sum_quantity p s t'.batches +ℤ q ≡ sum_quantity p s t.batches
  pub other_items :
      (p' s' : ℕ) → IsOther p s p' s' → sum_quantity p' s' t'.batches ≡ sum_quantity p' s' t.batches

module _ (fr : Fresh) (tenant user : ℕ) (input : StockOutInput) (t t' : Tables) {r : MovementResult}
    (sound : IsSound t) (run : OutRun fr tenant user input t t' r) where
  items_after : List Item
  items_after =
      update_where (has_id item_key run.existing.id) (item_out fr.now input.quantity run.existing)
        t.items

  keeps : KeepsItem (item_out fr.now input.quantity run.existing)
  keeps = item_out-KeepsItem fr.now input.quantity run.existing

  batches_after : Deducted input.product_id input.store_id input.quantity t.batches t'.batches
  batches_after = rw run.recorded.batches (
      deduct-Deducted input.product_id input.store_id input.quantity (truthy input.batch_number)
        t.batches sound.batch_keys sound.batches_nonneg (omega (arith, run.positive)) run.deducted)

  at_place : item_at input.product_id input.store_id run.existing ≡ true
  unfolding find_by_product_and_store
  at_place = find-holds (item_at input.product_id input.store_id) t.items run.found

  quantity_here :
      quantity_of (find_by_product_and_store input.product_id input.store_id t'.items)
      ≡ run.existing.quantity -ℤ input.quantity
  unfolding items_after
  quantity_here =
      Relabelled-quantity input.product_id input.store_id run.recorded.items
      ∙ quantity-patch (item_out fr.now input.quantity run.existing) keeps input.product_id
          input.store_id t.items run.found

  quantity_there :
      (p s : ℕ)
      → item_at p s run.existing ≡ false
      → quantity_of (find_by_product_and_store p s t'.items)
        ≡ quantity_of (find_by_product_and_store p s t.items)
  quantity_there p s away =
      Relabelled-quantity p s run.recorded.items
      ∙ quantity-patch_other (item_out fr.now input.quantity run.existing) keeps input.product_id
          input.store_id p s t.items sound.item_keys run.found away

  reconciled_before : run.existing.quantity ≡ sum_quantity input.product_id input.store_id t.batches
  reconciled_before =
      ap quantity_of (sym run.found) ∙ sound.reconciled input.product_id input.store_id

  reconciled_after :
      (p s : ℕ) → quantity_of (find_by_product_and_store p s t'.items) ≡ sum_quantity p s t'.batches
  reconciled_after p s = elim (Bool-cases (item_at p s run.existing)) [
    | inl here ↦
        let same = same_place input.product_id input.store_id p s run.existing at_place here in
        rw (← same.0, ← same.1)
          (quantity_here
            ∙ omega (int_laws, parts_of_eq batches_after.taken, parts_of_eq reconciled_before))
    | inr away ↦
        quantity_there p s away
        ∙ sound.reconciled p s
        ∙ sym (
            batches_after.others p s
              (IsOther-of input.product_id input.store_id p s run.existing at_place away))
  ]

  reserved_before : pos 0 ≤ℤ run.existing.reserved_quantity
  unfolding find_by_product_and_store
  reserved_before =
      (All-find IsAvailable (item_at input.product_id input.store_id) t.items sound.availability
        run.found).0

  run-IsSound : IsSound t'
  run-IsSound = record {
    item_keys = Relabelled-Distinct run.recorded.items (
        Distinct-update_where item_key (has_id item_key run.existing.id)
          (item_out fr.now input.quantity run.existing) t.items (λ i. refl) sound.item_keys);
    batch_keys = batches_after.distinct;
    reconciled = reconciled_after;
    batches_nonneg = batches_after.nonneg;
    availability =
        Relabelled-All IsAvailable (λ flag threshold i h. h) run.recorded.items
          (All-update_id item_key IsAvailable run.existing.id
            (item_out fr.now input.quantity run.existing) t.items sound.item_keys
            (found→find_by_id input.product_id input.store_id t.items sound.item_keys run.found)
            (reserved_before, refl) sound.availability);
  }

  run-TakenOut : TakenOut input.product_id input.store_id input.quantity run.existing.quantity t t'
  run-TakenOut = record {
    item_quantity = rw quantity_here (omega int_laws);
    batch_quantity = batches_after.taken;
    other_items = batches_after.others;
  }

-- A stock-out that succeeds on sound tables leaves sound tables: distinct keys, every live item
-- equal to the sum of its batches, no batch below nothing, and availability up to date.
pub stock_out-IsSound :
    (fr : Fresh) (tenant user : ℕ) (input : StockOutInput) (t : Tables) {t' : Tables}
    {r : MovementResult}
    → IsSound t
    → stock_out fr tenant user input t ≡ ok (t', r)
    → IsSound t'
stock_out-IsSound fr tenant user input t {t'} sound e =
    run-IsSound fr tenant user input t t' sound
      (stock_out-OutRun fr tenant user input t t' sound.item_keys e)

-- On sound tables a stock-out that succeeds takes exactly the quantity from the item and from the
-- batches of its product and store, and from the batches of no other product and store; the
-- quantity was positive and at most what was available.
pub stock_out-TakenOut :
    (fr : Fresh) (tenant user : ℕ) (input : StockOutInput) (t : Tables) {t' : Tables}
    {r : MovementResult}
    → IsSound t
    → stock_out fr tenant user input t ≡ ok (t', r)
    → (i : Item) × (find_by_product_and_store input.product_id input.store_id t.items ≡ some i)
      × (i.tenant_id ≡ tenant)
      × (pos 0 <ℤ input.quantity)
      × (input.quantity ≤ℤ i.available_quantity)
      × TakenOut input.product_id input.store_id input.quantity i.quantity t t'
stock_out-TakenOut fr tenant user input t {t'} sound e =
    let run = stock_out-OutRun fr tenant user input t t' sound.item_keys e in
    (
      run.existing,
      run.found,
      run.owned,
      run.positive,
      run.enough,
      run-TakenOut fr tenant user input t t' sound run,
    )
