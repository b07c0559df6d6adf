-- ===== src/Inventory/Stock/Sums.antt =====
-- The sum of a product's batches under the writes of a stock movement.
use radha_backend.Prelude.{
  ℕ, ◌≡◌, true, false, some, List, [], ◌∷◌, arith, inl, inr, Bool-cases, ==_iff, All, ◌==◌,
}
use radha_backend.Prelude.Int.{pos, ◌+ℤ◌, ◌≤ℤ◌, int_laws, parts_of_eq}
use radha_backend.Prelude.Table.{update_where, has_id, find_by_id}
use radha_backend.Prelude.Table.Laws.{Distinct, IsNew, update_where-new}
use radha_backend.Inventory.Types.{Batch}
use radha_backend.Inventory.Repositories.{batch_at, sum_quantity}

abbrev pub batch_key : Batch → ℕ
batch_key b = b.id

-- The patch keeps the key and the product and store.
pub record KeepsPlace (f : Batch → Batch) : Type 0 where
  pub id : (b : Batch) → (f b).id ≡ b.id
  pub product : (b : Batch) → (f b).product_id ≡ b.product_id
  pub store : (b : Batch) → (f b).store_id ≡ b.store_id

module _ (p s : ℕ) (f : Batch → Batch) (keeps : KeepsPlace f) where
  batch_at-patch : (b : Batch) → batch_at p s (f b) ≡ batch_at p s b
  unfolding batch_at
  batch_at-patch b = rw (keeps.product b, keeps.store b)

  pub sum-patch :
      (id : ℕ) (bs : List Batch) {b : Batch}
      → Distinct batch_key bs
      → find_by_id batch_key id bs ≡ some b
      → batch_at p s b ≡ true
      → sum_quantity p s (update_where (has_id batch_key id) f bs) +ℤ b.quantity
        ≡ sum_quantity p s bs +ℤ (f b).quantity
  unfolding sum_quantity
  sum-patch id [] u e here = cc
  sum-patch id (c ∷ cs) {b} u e here = elim (Bool-cases (c.id == id)) [
    | inl same ↦
        let first : c ≡ b = ground arith in
        let others : IsNew batch_key id cs = rw (← (==_iff c.id id).0 same) u.0 in
        rw (same, update_where-new batch_key id f cs others, first, batch_at-patch b, here)
          (omega int_laws)
    | inr other ↦
        let rest = sum-patch id cs {b = b} u.1 (rw other at e) here in
        elim (Bool-cases (batch_at p s c)) [
          | inl inside ↦ rw (other, inside) (omega (int_laws, parts_of_eq rest))
          | inr outside ↦ rw (other, outside) rest
        ]
  ]

  pub sum-patch_other :
      (id : ℕ) (bs : List Batch) {b : Batch}
      → Distinct batch_key bs
      → find_by_id batch_key id bs ≡ some b
      → batch_at p s b ≡ false
      → sum_quantity p s (update_where (has_id batch_key id) f bs) ≡ sum_quantity p s bs
  unfolding sum_quantity
  sum-patch_other id [] u e here = cc
  sum-patch_other id (c ∷ cs) {b} u e here = elim (Bool-cases (c.id == id)) [
    | inl same ↦
        let first : c ≡ b = ground arith in
        let others : IsNew batch_key id cs = rw (← (==_iff c.id id).0 same) u.0 in
        rw (same, update_where-new batch_key id f cs others, first, batch_at-patch b, here)
    | inr other ↦
        let rest = sum-patch_other id cs {b = b} u.1 (rw other at e) here in rw (other, rest)
  ]

-- Where no batch holds less than nothing, neither does their sum.
pub sum-nonneg :
    (p s : ℕ) (bs : List Batch) → All (λ b. pos 0 ≤ℤ b.quantity) bs → pos 0 ≤ℤ sum_quantity p s bs
unfolding sum_quantity
sum-nonneg p s [] u = omega arith
sum-nonneg p s (b ∷ bs) u = elim (Bool-cases (batch_at p s b)) [
  | inl inside ↦ rw inside (omega (int_laws, u.0, sum-nonneg p s bs u.1))
  | inr outside ↦ rw outside (sum-nonneg p s bs u.1)
]
