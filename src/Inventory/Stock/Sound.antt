-- ===== src/Inventory/Stock/Sound.antt =====
-- What the tables of src/modules/inventory satisfy between two operations, and how a patch of one
-- item's row moves the quantity that the row of a product and store holds.
use radha_backend.Prelude.{
  ℕ, ◌≡◌, refl, true, false, some, List, arith, inl, inr, Bool-cases, Option-cases, ==_iff, ==_refl,
  All, find, ◌==◌,
}
use radha_backend.Prelude.Int.{pos, ◌-ℤ◌, ◌≤ℤ◌}
use radha_backend.Prelude.Table.{find_by_id, update_where, has_id}
use radha_backend.Prelude.Table.Laws.{
  Distinct, find-update_where, find_unique, find→find_by_id, find-holds, patch, map_option,
}
use radha_backend.Inventory.Types.{Item, Tables}
use radha_backend.Inventory.Repositories.{
  item_at, batch_at, find_by_product_and_store, sum_quantity,
}
use radha_backend.Inventory.Movement.{quantity_of}
use radha_backend.Inventory.Stock.Sums.{batch_key}
use radha_backend.Inventory.Stock.Labels.{item_key}
use radha_backend.Inventory.Stock.Fifo.{NonNeg, IsOther}

-- What is reserved is not available, and nothing else is held back.
abbrev pub IsAvailable : Item → Type 0
IsAvailable i =
    (pos 0 ≤ℤ i.reserved_quantity) × (i.available_quantity ≡ i.quantity -ℤ i.reserved_quantity)

-- The keys are distinct, every live item holds the sum of its batches, no batch holds less than
-- nothing, and the availability of each item is its quantity less what is reserved.
pub record IsSound (t : Tables) : Type 0 where
  pub item_keys : Distinct item_key t.items
  pub batch_keys : Distinct batch_key t.batches
  pub reconciled :
      (p s : ℕ) → quantity_of (find_by_product_and_store p s t.items) ≡ sum_quantity p s t.batches
  pub batches_nonneg : All NonNeg t.batches
  pub availability : All IsAvailable t.items

-- The patch keeps the key, the place and the deletion mark.
pub record KeepsItem (f : Item → Item) : Type 0 where
  pub id : (i : Item) → (f i).id ≡ i.id
  pub product : (i : Item) → (f i).product_id ≡ i.product_id
  pub store : (i : Item) → (f i).store_id ≡ i.store_id
  pub deleted : (i : Item) → (f i).deleted_at ≡ i.deleted_at

-- A place is one product and store.
pub IsOther-of :
    (p s p' s' : ℕ) (i : Item) → item_at p s i ≡ true → item_at p' s' i ≡ false → IsOther p s p' s'
unfolding item_at batch_at
IsOther-of p s p' s' i here away b at = ground arith

pub same_place :
    (p s p' s' : ℕ) (i : Item) → item_at p s i ≡ true → item_at p' s' i ≡ true → (p ≡ p') × (s ≡ s')
unfolding item_at
same_place p s p' s' i here here' = ground arith

module _ (f : Item → Item) (keeps : KeepsItem f) where
  item_at-patch : (p s : ℕ) (i : Item) → item_at p s (f i) ≡ item_at p s i
  unfolding item_at
  item_at-patch p s i = rw (keeps.product i, keeps.store i, keeps.deleted i)

  pub patch-find :
      (p s id : ℕ) (items : List Item)
      → find_by_product_and_store p s (update_where (has_id item_key id) f items)
        ≡ map_option (patch (has_id item_key id) f) (find_by_product_and_store p s items)
  unfolding find_by_product_and_store
  patch-find p s id items =
      find-update_where (item_at p s) (has_id item_key id) f items (item_at-patch p s)

  pub quantity-patch :
      (p s : ℕ) (items : List Item) {i : Item}
      → find_by_product_and_store p s items ≡ some i
      → quantity_of (find_by_product_and_store p s (update_where (has_id item_key i.id) f items))
        ≡ (f i).quantity
  quantity-patch p s items {i} e = rw (patch-find p s i.id items, e) (rw (==_refl i.id) refl)

  pub quantity-patch_other :
      (p s p' s' : ℕ) (items : List Item) {i : Item}
      → Distinct item_key items
      → find_by_product_and_store p s items ≡ some i
      → item_at p' s' i ≡ false
      → quantity_of (find_by_product_and_store p' s' (update_where (has_id item_key i.id) f items))
        ≡ quantity_of (find_by_product_and_store p' s' items)
  unfolding find_by_product_and_store
  quantity-patch_other p s p' s' items {i} u e away =
      elim (Option-cases (find (item_at p' s') items)) [
        | inl missing ↦ rw (patch-find p' s' i.id items, missing)
        | inr (j, found) ↦ elim (Bool-cases (j.id == i.id)) [
          | inr other ↦ rw (patch-find p' s' i.id items, found) (rw other)
          | inl same ↦
              let row =
                find_unique item_key (item_at p' s') (item_at p s) items u found e
                  ((==_iff j.id i.id).0 same) in
              let holds = find-holds (item_at p' s') items found in
              absurd (ground (arith, row, holds, away))
        ]
      ]

pub found→find_by_id :
    (p s : ℕ) (items : List Item) {i : Item}
    → Distinct item_key items
    → find_by_product_and_store p s items ≡ some i
    → find_by_id item_key i.id items ≡ some i
unfolding find_by_product_and_store
found→find_by_id p s items u e = find→find_by_id item_key (item_at p s) items u e
