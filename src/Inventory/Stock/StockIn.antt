-- ===== src/Inventory/Stock/StockIn.antt =====
-- src/modules/inventory/services/stock-movement.service.ts: a stock-in that succeeds keeps the
-- tables sound, and adds its quantity to the batches and to the item alike.
use radha_backend.Prelude.{
  ℕ, ◌≡◌, sym, ap, ◌∙◌, false, List, ◌∷◌, inl, inr, Bool-cases, ok, >>=-ok_then, throw_if,
  throw_if-ok, business, value_out_of_range, not_found,
}
use radha_backend.Prelude.Int.{ℤ, pos, ◌+ℤ◌, ◌<ℤ◌, leb_ℤ, leb_ℤ-gt}
use radha_backend.Prelude.Table.Laws.{IsNew}
use radha_backend.Inventory.Types.{Item, Batch, Tables, Fresh, StockInInput, MovementResult}
use radha_backend.Inventory.Repositories.{item_at, find_by_product_and_store, sum_quantity}
use radha_backend.Inventory.Movement.{quantity_of}
use radha_backend.Inventory.Movement.Inbound.{
  put_item, upsert_batch, foreign_tenant, movement_in, stock_in,
}
use radha_backend.Inventory.Stock.Sums.{batch_key}
use radha_backend.Inventory.Stock.Labels.{
  item_key, Recorded, record_movement-Recorded, Relabelled-Distinct, Relabelled-quantity,
  Relabelled-All,
}
use radha_backend.Inventory.Stock.Fifo.{IsOther}
use radha_backend.Inventory.Stock.Inflow.{
  ItemPut, BatchPut, put_item-ItemPut, upsert_batch-BatchPut,
}
use radha_backend.Inventory.Stock.Sound.{IsSound, IsAvailable, IsOther-of, same_place}

-- The keys that the database generates are of no row.
pub record IsFresh (fr : Fresh) (t : Tables) : Type 0 where
  pub item : IsNew item_key fr.item_id t.items
  pub batch : IsNew batch_key fr.batch_id t.batches

-- The intermediate values of a stock-in that succeeded.
record InRun (fr : Fresh) (tenant user : ℕ) (input : StockInInput) (t t' : Tables)
    (r : MovementResult) : Type 0 where
  items : List Item
  item : Item
  batches : List Batch
  batch : Batch
  positive : pos 0 <ℤ input.quantity
  owned :
      foreign_tenant (find_by_product_and_store input.product_id input.store_id t.items) tenant
      ≡ false
  item_put : ItemPut input.product_id input.store_id input.quantity t.items items item
  batch_put : BatchPut input.product_id input.store_id input.quantity t.batches batches
  recorded :
      Recorded
        (movement_in fr tenant user input item
          (quantity_of (find_by_product_and_store input.product_id input.store_id t.items))
          batch)
        item
        (record t { items = items; batches = batches })
        t'
        r

stock_in-InRun :
    (fr : Fresh) (tenant user : ℕ) (input : StockInInput) (t t' : Tables) {r : MovementResult}
    → IsSound t
    → IsFresh fr t
    → stock_in fr tenant user input t ≡ ok (t', r)
    → InRun fr tenant user input t t' r
unfolding stock_in
stock_in-InRun fr tenant user input t t' {r} sound new e =
    let existing = find_by_product_and_store input.product_id input.store_id t.items in
    >>=-ok_then (throw_if (leb_ℤ input.quantity (pos 0)) (business value_out_of_range)) _ e
      λ _ tested e1.
        >>=-ok_then (throw_if (foreign_tenant existing tenant) not_found) _ e1 λ _ owned e2.
          >>=-ok_then (put_item fr tenant input existing t.items) _ e2 λ item put e3.
            >>=-ok_then (upsert_batch fr tenant input item.1.id t.batches) _ e3 λ batch upserted e4.
              let positive = leb_ℤ-gt input.quantity (pos 0) (throw_if-ok _ _ tested) in
              record {
                items = item.0;
                item = item.1;
                batches = batch.0;
                batch = batch.1;
                positive = positive;
                owned = throw_if-ok (foreign_tenant existing tenant) not_found owned;
                item_put =
                    put_item-ItemPut fr tenant input positive t.items sound.item_keys new.item
                      sound.availability put;
                batch_put =
                    upsert_batch-BatchPut fr tenant input positive item.1.id t.batches
                      sound.batch_keys new.batch sound.batches_nonneg upserted;
                recorded = record_movement-Recorded fr _ _ _ t' e4;
              }

module _ (fr : Fresh) (tenant user : ℕ) (input : StockInInput) (t t' : Tables) {r : MovementResult}
    (sound : IsSound t) (run : InRun fr tenant user input t t' r) where
  batches_after : BatchPut input.product_id input.store_id input.quantity t.batches t'.batches
  batches_after = rw run.recorded.batches run.batch_put

  quantity_here :
      quantity_of (find_by_product_and_store input.product_id input.store_id t'.items)
      ≡ quantity_of (find_by_product_and_store input.product_id input.store_id t.items)
        +ℤ input.quantity
  quantity_here =
      Relabelled-quantity input.product_id input.store_id run.recorded.items ∙ run.item_put.here

  reconciled_after :
      (p s : ℕ) → quantity_of (find_by_product_and_store p s t'.items) ≡ sum_quantity p s t'.batches
  reconciled_after p s = elim (Bool-cases (item_at p s run.item)) [
    | inl here ↦
        let same =
          same_place input.product_id input.store_id p s run.item run.item_put.place here in
        rw (← same.0, ← same.1)
          (quantity_here
            ∙ ap (λ q. q +ℤ input.quantity) (sound.reconciled input.product_id input.store_id)
            ∙ sym batches_after.added)
    | inr away ↦
        Relabelled-quantity p s run.recorded.items
        ∙ run.item_put.there p s away
        ∙ sound.reconciled p s
        ∙ sym (
            batches_after.others p s
              (IsOther-of input.product_id input.store_id p s run.item run.item_put.place away))
  ]

  run-IsSound : IsSound t'
  run-IsSound = record {
    item_keys = Relabelled-Distinct run.recorded.items run.item_put.distinct;
    batch_keys = batches_after.distinct;
    reconciled = reconciled_after;
    batches_nonneg = batches_after.nonneg;
    availability =
        Relabelled-All IsAvailable (λ flag threshold i h. h) run.recorded.items
          run.item_put.availability;
  }

-- What a stock-in of `q` at (p, s) leaves.
pub record PutIn (p s : ℕ) (q : ℤ) (t t' : Tables) : Type 0 where
  pub item_quantity :
      quantity_of (find_by_product_and_store p s t'.items)
      ≡ quantity_of (find_by_product_and_store p s t.items) +ℤ q
  pub batch_quantity : sum_quantity p s t'.batches ≡ sum_quantity p s t.batches +ℤ q
  pub other_batches :
      (p' s' : ℕ) → IsOther p s p' s' → sum_quantity p' s' t'.batches ≡ sum_quantity p' s' t.batches
  pub other_items :
      (p' s' : ℕ)
      → IsOther p s p' s'
      → quantity_of (find_by_product_and_store p' s' t'.items)
        ≡ quantity_of (find_by_product_and_store p' s' t.items)

-- A stock-in that succeeds on sound tables, with keys that no row has, leaves sound tables.
pub stock_in-IsSound :
    (fr : Fresh) (tenant user : ℕ) (input : StockInInput) (t : Tables) {t' : Tables}
    {r : MovementResult}
    → IsSound t
    → IsFresh fr t
    → stock_in fr tenant user input t ≡ ok (t', r)
    → IsSound t'
stock_in-IsSound fr tenant user input t {t'} sound new e =
    run-IsSound fr tenant user input t t' sound
      (stock_in-InRun fr tenant user input t t' sound new e)

-- A stock-in that succeeds on sound tables, with keys that no row has, adds exactly its quantity,
-- which was positive, to the item and to the batches of its product and store, leaves the quantity
-- and the total of the batches of every other product and store alone, appends the movement that it
-- returns, and the item that it found, if any, was the tenant's own. Of the batch with the number
-- that the input names nothing is said about the tenant.
pub stock_in-PutIn :
    (fr : Fresh) (tenant user : ℕ) (input : StockInInput) (t : Tables) {t' : Tables}
    {r : MovementResult}
    → IsSound t
    → IsFresh fr t
    → stock_in fr tenant user input t ≡ ok (t', r)
    → PutIn input.product_id input.store_id input.quantity t t'
      × (pos 0 <ℤ input.quantity)
      × (t'.movements ≡ r.movement ∷ t.movements)
      × (foreign_tenant (find_by_product_and_store input.product_id input.store_id t.items) tenant
          ≡ false)
stock_in-PutIn fr tenant user input t {t'} sound new e =
    let run = stock_in-InRun fr tenant user input t t' sound new e in
    let after = batches_after fr tenant user input t t' sound run in
    (
      record {
        item_quantity = quantity_here fr tenant user input t t' sound run;
        batch_quantity = after.added;
        other_batches = after.others;
        other_items = λ p' s' other.
            (run-IsSound fr tenant user input t t' sound run).reconciled p' s'
            ∙ after.others p' s' other
            ∙ sym (sound.reconciled p' s');
      },
      run.positive,
      run.recorded.movements ∙ ap (λ m. m ∷ t.movements) (sym run.recorded.movement),
      run.owned,
    )
