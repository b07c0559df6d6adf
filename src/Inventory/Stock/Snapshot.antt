-- ===== src/Inventory/Stock/Snapshot.antt =====
-- src/modules/inventory/repositories/inventory-batches.repository.ts: the rows of
-- `findFifoBatches`.
use radha_backend.Prelude.{
  ℕ, ◌≡◌, ◌≢◌, refl, sym, ap, ◌∙◌, true, false, some, List, [], ◌∷◌, arith, inl, inr, Bool-cases,
  All, select,
}
use radha_backend.Prelude.Int.{pos, ◌+ℤ◌, int_laws, parts_of_eq, ltb_ℤ, ltb_ℤ-zero}
use radha_backend.Prelude.Table.{find_by_id}
use radha_backend.Prelude.Table.Laws.{
  Distinct, IsNew, Distinct-select, All-found, select-holds, All-map, All-both, All-select,
}
use radha_backend.Inventory.Types.{Batch}
use radha_backend.Inventory.Repositories.{
  batch_at, sum_quantity, fifo_le, insert_fifo, sort_fifo, in_stock_at, find_fifo_batches,
}
use radha_backend.Inventory.Stock.Sums.{batch_key}
use radha_backend.Inventory.Stock.Fifo.{NonNeg, IsCurrent, total}

All-insert_fifo :
    (P : Batch → Type 0) (b : Batch) (bs : List Batch) → P b → All P bs → All P (insert_fifo b bs)
unfolding insert_fifo
All-insert_fifo P b [] h u = (h, tt)
All-insert_fifo P b (c ∷ cs) h u = elim (Bool-cases (fifo_le b c)) [
  | inl e ↦ rw e (h, u)
  | inr e ↦ rw e (u.0, All-insert_fifo P b cs h u.1)
]

pub All-sort_fifo : (P : Batch → Type 0) (bs : List Batch) → All P bs → All P (sort_fifo bs)
unfolding sort_fifo
All-sort_fifo P [] u = tt
All-sort_fifo P (b ∷ bs) u = All-insert_fifo P b (sort_fifo bs) u.0 (All-sort_fifo P bs u.1)

Distinct-insert_fifo :
    (b : Batch) (bs : List Batch)
    → IsNew batch_key b.id bs
    → Distinct batch_key bs
    → Distinct batch_key (insert_fifo b bs)
unfolding insert_fifo
Distinct-insert_fifo b [] n u = (tt, tt)
Distinct-insert_fifo b (c ∷ cs) n u = elim (Bool-cases (fifo_le b c)) [
  | inl e ↦ rw e ((n.0, n.1), u)
  | inr e ↦ rw e (
    All-insert_fifo (λ s. s.id ≢ c.id) b cs (λ p. n.0 (sym p)) u.0,
    Distinct-insert_fifo b cs n.1 u.1,
  )
]

Distinct-sort_fifo : (bs : List Batch) → Distinct batch_key bs → Distinct batch_key (sort_fifo bs)
unfolding sort_fifo
Distinct-sort_fifo [] u = tt
Distinct-sort_fifo (b ∷ bs) u =
    Distinct-insert_fifo b (sort_fifo bs) (All-sort_fifo (λ s. s.id ≢ b.id) bs u.0)
      (Distinct-sort_fifo bs u.1)

total-insert_fifo :
    (b : Batch) (bs : List Batch) → total (insert_fifo b bs) ≡ b.quantity +ℤ total bs
unfolding insert_fifo
total-insert_fifo b [] = refl
total-insert_fifo b (c ∷ cs) = elim (Bool-cases (fifo_le b c)) [
  | inl e ↦ rw e
  | inr e ↦ rw e (omega (int_laws, parts_of_eq (total-insert_fifo b cs)))
]

total-sort_fifo : (bs : List Batch) → total (sort_fifo bs) ≡ total bs
unfolding sort_fifo
total-sort_fifo [] = refl
total-sort_fifo (b ∷ bs) =
    total-insert_fifo b (sort_fifo bs) ∙ ap (λ t. b.quantity +ℤ t) (total-sort_fifo bs)

in_stock_at_lem :
    (p s : ℕ) (b : Batch) → batch_at p s b ≡ true → in_stock_at p s b ≡ ltb_ℤ (pos 0) b.quantity
unfolding in_stock_at
in_stock_at_lem p s b h = rw h

in_stock_at_outside : (p s : ℕ) (b : Batch) → batch_at p s b ≡ false → in_stock_at p s b ≡ false
unfolding in_stock_at
in_stock_at_outside p s b h = rw h

-- Where no batch holds less than nothing, the rows in stock hold all there is.
total-select :
    (p s : ℕ) (bs : List Batch)
    → All NonNeg bs
    → total (select (in_stock_at p s) bs) ≡ sum_quantity p s bs
unfolding sum_quantity
total-select p s [] u = refl
total-select p s (b ∷ bs) u =
    let rest = total-select p s bs u.1 in
    elim (Bool-cases (batch_at p s b)) [
      | inr outside ↦ rw (in_stock_at_outside p s b outside, outside, rest)
      | inl inside ↦ elim (Bool-cases (ltb_ℤ (pos 0) b.quantity)) [
        | inl some_left ↦ rw (in_stock_at_lem p s b inside ∙ some_left, inside, rest)
        | inr empty ↦
            let nothing : b.quantity ≡ pos 0 = ltb_ℤ-zero b.quantity empty u.0 in
            rw (in_stock_at_lem p s b inside ∙ empty, inside, nothing)
              (omega (int_laws, parts_of_eq rest))
      ]
    ]

in_stock→IsCurrent :
    (p s : ℕ) (table : List Batch) (b : Batch)
    → (find_by_id batch_key b.id table ≡ some b) × (in_stock_at p s b ≡ true)
    → IsCurrent p s table b
unfolding in_stock_at
in_stock→IsCurrent p s table b h = record {
  found = h.0;
  here = ground (arith, h.1);
  stocked = ground (arith, h.1);
}

-- The rows that the loop of a stock-out reads.
pub record IsSnapshot (p s : ℕ) (table bs : List Batch) : Type 0 where
  pub distinct : Distinct batch_key bs
  pub current : All (IsCurrent p s table) bs
  pub all_stock : total bs ≡ sum_quantity p s table

pub find_fifo_batches-IsSnapshot :
    (p s : ℕ) (table : List Batch)
    → Distinct batch_key table
    → All NonNeg table
    → IsSnapshot p s table (find_fifo_batches p s table)
unfolding find_fifo_batches
find_fifo_batches-IsSnapshot p s table u nn =
    let chosen = select (in_stock_at p s) table in
    record {
      distinct = Distinct-sort_fifo chosen (Distinct-select batch_key (in_stock_at p s) table u);
      current = All-sort_fifo (IsCurrent p s table) chosen (
          All-map _ (IsCurrent p s table) chosen (in_stock→IsCurrent p s table) (
            All-both _ _ chosen (All-select _ (in_stock_at p s) table (All-found batch_key table u))
              (select-holds (in_stock_at p s) table)));
      all_stock = total-sort_fifo chosen ∙ total-select p s table nn;
    }
