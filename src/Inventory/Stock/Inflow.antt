-- ===== src/Inventory/Stock/Inflow.antt =====
-- src/modules/inventory/services/stock-movement.service.ts: what a stock-in writes to the items and
-- to the batches.
use radha_backend.Prelude.{
  ℕ, ◌≡◌, refl, subst, ◌∙◌, Bool, true, false, ◌&&◌, Option, none, some, List, ◌∷◌, arith, inl, inr,
  Option-cases, ==_refl, All, find, String, ok,
}
use radha_backend.Prelude.Int.{ℤ, pos, ◌+ℤ◌, ◌<ℤ◌, int_laws, parts_of_eq}
use radha_backend.Prelude.Table.{update_where, has_id}
use radha_backend.Prelude.Table.Laws.{
  Distinct, IsNew, find→find_by_id, find-holds, update-ok, Distinct-update_where, All-update_where,
  All-update_id, All-find,
}
use radha_backend.Inventory.Types.{Item, Batch, Fresh, StockInInput}
use radha_backend.Inventory.Repositories.{
  item_at, batch_at, find_by_product_and_store, find_by_batch_number, sum_quantity, is_number,
}
use radha_backend.Inventory.Movement.{quantity_of, truthy}
use radha_backend.Inventory.Movement.Inbound.{
  new_item, item_in, put_item, new_batch, batch_in, named_batch, upsert_batch,
}
use radha_backend.Inventory.Stock.Sums.{batch_key, KeepsPlace, sum-patch, sum-patch_other}
use radha_backend.Inventory.Stock.Labels.{item_key}
use radha_backend.Inventory.Stock.Fifo.{NonNeg, IsOther}
use radha_backend.Inventory.Stock.Sound.{
  IsAvailable, KeepsItem, quantity-patch, quantity-patch_other,
}

-- What adding `q` to the item at (p, s) did.
pub record ItemPut (p s : ℕ) (q : ℤ) (items items' : List Item) (item : Item) : Type 0 where
  pub distinct : Distinct item_key items'
  pub place : item_at p s item ≡ true
  pub here :
      quantity_of (find_by_product_and_store p s items')
      ≡ quantity_of (find_by_product_and_store p s items) +ℤ q
  pub there :
      (p' s' : ℕ)
      → item_at p' s' item ≡ false
      → quantity_of (find_by_product_and_store p' s' items')
        ≡ quantity_of (find_by_product_and_store p' s' items)
  pub availability : All IsAvailable items'

-- What adding `q` to the batches of (p, s) did.
pub record BatchPut (p s : ℕ) (q : ℤ) (bs bs' : List Batch) : Type 0 where
  pub distinct : Distinct batch_key bs'
  pub nonneg : All NonNeg bs'
  pub added : sum_quantity p s bs' ≡ sum_quantity p s bs +ℤ q
  pub others : (p' s' : ℕ) → IsOther p s p' s' → sum_quantity p' s' bs' ≡ sum_quantity p' s' bs

module _ (fr : Fresh) (tenant : ℕ) (input : StockInInput) (positive : pos 0 <ℤ input.quantity) where
  new_item-place : item_at input.product_id input.store_id (new_item fr tenant input) ≡ true
  unfolding item_at
  new_item-place = rw (==_refl input.product_id, ==_refl input.store_id)

  create-ItemPut :
      (items : List Item)
      → Distinct item_key items
      → IsNew item_key fr.item_id items
      → All IsAvailable items
      → find_by_product_and_store input.product_id input.store_id items ≡ none
      → ItemPut input.product_id input.store_id input.quantity items
          (new_item fr tenant input ∷ items)
          (new_item fr tenant input)
  unfolding find_by_product_and_store
  create-ItemPut items u new v missing = record {
    distinct = (new, u);
    place = new_item-place;
    here = rw (new_item-place, missing) (omega int_laws);
    there = λ p' s' away. rw away;
    availability = ((omega arith, omega int_laws), v);
  }

  update-ItemPut :
      (items : List Item) {i : Item}
      → Distinct item_key items
      → All IsAvailable items
      → find_by_product_and_store input.product_id input.store_id items ≡ some i
      → ItemPut input.product_id input.store_id input.quantity items
          (update_where
            (has_id item_key i.id)
            (item_in fr.now input.quantity (i.quantity +ℤ input.quantity) i)
            items)
          (item_in fr.now input.quantity (i.quantity +ℤ input.quantity) i i)
  unfolding find_by_product_and_store item_at
  update-ItemPut items {i} u v found =
      let patch = item_in fr.now input.quantity (i.quantity +ℤ input.quantity) i in
      let keeps : KeepsItem patch = record {
        id = λ x. refl;
        product = λ x. refl;
        store = λ x. refl;
        deleted = λ x. refl;
      } in
      let here = find-holds (item_at input.product_id input.store_id) items found in
      record {
        distinct = Distinct-update_where item_key (has_id item_key i.id) patch items (λ x. refl) u;
        place = here;
        here =
            quantity-patch patch keeps input.product_id input.store_id items found ∙ rw found refl;
        there = λ p' s' away.
            quantity-patch_other patch keeps input.product_id input.store_id p' s' items u found
              away;
        availability =
            All-update_id item_key IsAvailable i.id patch items u
              (find→find_by_id item_key (item_at input.product_id input.store_id) items u found)
              (
                (All-find IsAvailable (item_at input.product_id input.store_id) items v found).0,
                refl,
              )
              v;
      }

  new_batch-place :
      (item_id : ℕ)
      → batch_at input.product_id input.store_id (new_batch fr tenant input item_id) ≡ true
  unfolding batch_at
  new_batch-place item_id = rw (==_refl input.product_id, ==_refl input.store_id)

  create-BatchPut :
      (item_id : ℕ) (bs : List Batch)
      → Distinct batch_key bs
      → IsNew batch_key fr.batch_id bs
      → All NonNeg bs
      → BatchPut input.product_id input.store_id input.quantity bs
          (new_batch fr tenant input item_id ∷ bs)
  unfolding sum_quantity
  create-BatchPut item_id bs u new v = record {
    distinct = (new, u);
    nonneg = (omega (arith, positive), v);
    added = rw (new_batch-place item_id) (omega int_laws);
    others = λ p' s' o. rw (o (new_batch fr tenant input item_id) (new_batch-place item_id));
  }

  update-BatchPut :
      (bs : List Batch) {b : Batch} (q : Batch → Bool)
      → Distinct batch_key bs
      → All NonNeg bs
      → find q bs ≡ some b
      → batch_at input.product_id input.store_id b ≡ true
      → BatchPut input.product_id input.store_id input.quantity bs
          (update_where (has_id batch_key b.id) (batch_in input b) bs)
  update-BatchPut bs {b} q u v found here =
      let keeps : KeepsPlace (batch_in input b) = record {
        id = λ x. refl;
        product = λ x. refl;
        store = λ x. refl;
      } in
      let key = find→find_by_id batch_key q bs u found in
      let before = All-find NonNeg q bs v found in
      record {
        distinct =
            Distinct-update_where batch_key (has_id batch_key b.id) (batch_in input b) bs
              (λ x. refl) u;
        nonneg =
            All-update_where NonNeg (has_id batch_key b.id) (batch_in input b) bs
              (λ x h. omega (int_laws, before, positive)) v;
        added = omega (
          int_laws,
          parts_of_eq (
              sum-patch input.product_id input.store_id (batch_in input b) keeps b.id bs u key
                here),
        );
        others = λ p' s' o. sum-patch_other p' s' (batch_in input b) keeps b.id bs u key (o b here);
      }

  pub put_item-ItemPut :
      (items : List Item) {items' : List Item} {item : Item}
      → Distinct item_key items
      → IsNew item_key fr.item_id items
      → All IsAvailable items
      → put_item fr tenant input
          (find_by_product_and_store input.product_id input.store_id items)
          items
        ≡ ok (items', item)
      → ItemPut input.product_id input.store_id input.quantity items items' item
  unfolding find_by_product_and_store
  put_item-ItemPut items {items'} {item} u new v e =
      elim (Option-cases (find_by_product_and_store input.product_id input.store_id items)) [
        | inl missing ↦
            let same : ◌≡◌ {A = List Item × Item}
                (new_item fr tenant input ∷ items, new_item fr tenant input) (items', item) =
              ground (arith, missing) in
            subst
              (λ (w : List Item × Item).
                ItemPut input.product_id input.store_id input.quantity items w.0 w.1)
              same (create-ItemPut items u new v missing)
        | inr (i, found) ↦
            let patch = item_in fr.now input.quantity (i.quantity +ℤ input.quantity) i in
            let done =
              update-ok item_key i.id patch items (λ x. refl)
                (find→find_by_id item_key (item_at input.product_id input.store_id) items u
                  found) in
            let same : ◌≡◌ {A = List Item × Item}
                (update_where (has_id item_key i.id) patch items, patch i) (items', item) =
              ground (arith, found, done) in
            subst
              (λ (w : List Item × Item).
                ItemPut input.product_id input.store_id input.quantity items w.0 w.1)
              same (update-ItemPut items u v found)
      ]

  named_batch-holds :
      (n : Option String) (bs : List Batch) {b : Batch}
      → named_batch input.product_id input.store_id n bs ≡ some b
      → (q : Batch → Bool) × (find q bs ≡ some b)
        × (batch_at input.product_id input.store_id b ≡ true)
  unfolding find_by_batch_number
  named_batch-holds none bs e = cc
  named_batch-holds (some n) bs e =
      let holds =
        find-holds (λ c. batch_at input.product_id input.store_id c && is_number c.batch_number n)
          bs e in
      (
        (λ c. batch_at input.product_id input.store_id c && is_number c.batch_number n),
        e,
        ground (arith, holds),
      )

  pub upsert_batch-BatchPut :
      (item_id : ℕ) (bs : List Batch) {bs' : List Batch} {b : Batch}
      → Distinct batch_key bs
      → IsNew batch_key fr.batch_id bs
      → All NonNeg bs
      → upsert_batch fr tenant input item_id bs ≡ ok (bs', b)
      → BatchPut input.product_id input.store_id input.quantity bs bs'
  unfolding upsert_batch
  upsert_batch-BatchPut item_id bs {bs'} {b} u new v e =
      let named = named_batch input.product_id input.store_id (truthy input.batch_number) bs in
      elim (Option-cases named) [
        | inl missing ↦
            let same : new_batch fr tenant input item_id ∷ bs ≡ bs' = ground (arith, missing) in
            subst (BatchPut input.product_id input.store_id input.quantity bs) same
              (create-BatchPut item_id bs u new v)
        | inr (c, found) ↦
            let (q, by, here) = named_batch-holds (truthy input.batch_number) bs found in
            let done =
              update-ok batch_key c.id (batch_in input c) bs (λ x. refl)
                (find→find_by_id batch_key q bs u by) in
            let same : update_where (has_id batch_key c.id) (batch_in input c) bs ≡ bs' =
              ground (arith, found, done) in
            subst (BatchPut input.product_id input.store_id input.quantity bs) same
              (update-BatchPut bs q u v by here)
      ]
