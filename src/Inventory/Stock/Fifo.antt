-- ===== src/Inventory/Stock/Fifo.antt =====
-- src/modules/inventory/services/stock-movement.service.ts: what the FIFO loop of a stock-out takes
-- from the batches.
use radha_backend.Prelude.{
  ℕ, ◌≡◌, ◌≢◌, refl, ◌∙◌, true, false, some, List, [], ◌∷◌, arith, ◌⊎◌, inl, inr, Bool-cases,
  ==_iff, All, ok,
}
use radha_backend.Prelude.Int.{
  ℤ, pos, ◌+ℤ◌, ◌-ℤ◌, ◌≤ℤ◌, ◌<ℤ◌, int_laws, parts_of_eq, eqb_ℤ, eqb_ℤ→eq, min_ℤ, min_ℤ_parts,
  min_ℤ-nonneg, min_ℤ-le_left, min_ℤ-le_right,
}
use radha_backend.Prelude.Table.{update_where, has_id, find_by_id}
use radha_backend.Prelude.Table.Laws.{
  Distinct, update-ok, Distinct-update_where, All-update_where, find-update_where, All-both,
  All-map,
}
use radha_backend.Inventory.Types.{Batch}
use radha_backend.Inventory.Repositories.{batch_at, sum_quantity}
use radha_backend.Inventory.Movement.Outbound.{Deduction, deduct_fifo, set_quantity, first_of_two}
use radha_backend.Inventory.Stock.Sums.{batch_key, KeepsPlace, sum-patch, sum-patch_other}

abbrev pub NonNeg : Batch → Type 0
NonNeg b = pos 0 ≤ℤ b.quantity

-- The row stands in the table as it is, belongs to the product and store, and has stock.
pub record IsCurrent (p s : ℕ) (table : List Batch) (b : Batch) : Type 0 where
  pub found : find_by_id batch_key b.id table ≡ some b
  pub here : batch_at p s b ≡ true
  pub stocked : pos 0 <ℤ b.quantity

abbrev pub total : List Batch → ℤ
total [] = pos 0
total (b ∷ bs) = b.quantity +ℤ total bs

-- No batch belongs to both products and stores.
abbrev pub IsOther : ℕ → ℕ → ℕ → ℕ → Type 0
IsOther p s p' s' = (b : Batch) → batch_at p s b ≡ true → batch_at p' s' b ≡ false

-- From `d` to `d'` the loop over `bs` takes what it counts off, and stops short only where all
-- of `bs` is used up.
pub record Drained (p s : ℕ) (bs : List Batch) (d d' : Deduction) : Type 0 where
  pub distinct : Distinct batch_key d'.batches
  pub nonneg : All NonNeg d'.batches
  pub taken :
      sum_quantity p s d'.batches +ℤ d.remaining ≡ sum_quantity p s d.batches +ℤ d'.remaining
  pub others :
      (p' s' : ℕ) → IsOther p s p' s' → sum_quantity p' s' d'.batches ≡ sum_quantity p' s' d.batches
  pub rest : pos 0 ≤ℤ d'.remaining
  pub less : d'.remaining ≤ℤ d.remaining
  pub enough : (d'.remaining ≡ pos 0) ⊎ (total bs +ℤ d'.remaining ≡ d.remaining)

pub set_quantity-KeepsPlace : (q : ℤ) → KeepsPlace (set_quantity q)
set_quantity-KeepsPlace q = record { id = λ b. refl; product = λ b. refl; store = λ b. refl }

IsCurrent-patch :
    (p s id : ℕ) (q : ℤ) (table : List Batch) (c : Batch)
    → IsCurrent p s table c × (c.id ≢ id)
    → IsCurrent p s (update_where (has_id batch_key id) (set_quantity q) table) c
IsCurrent-patch p s id q table c (u, ne) =
    let moved =
      find-update_where (has_id batch_key c.id) (has_id batch_key id) (set_quantity q) table
        (λ r. refl) in
    record {
      found = ground (arith, moved, u.found, ==_iff c.id id, ne);
      here = u.here;
      stocked = u.stocked;
    }

-- One round of the loop, as a step of the deduction.
abbrev after_round : Batch → Deduction → Deduction
after_round b d = record {
  remaining = d.remaining -ℤ min_ℤ b.quantity d.remaining;
  batches =
      update_where (has_id batch_key b.id)
        (set_quantity (b.quantity -ℤ min_ℤ b.quantity d.remaining)) d.batches;
  first = first_of_two d.first b;
}

deduct_fifo-round :
    (p s : ℕ) (b : Batch) (bs : List Batch) (d : Deduction)
    → IsCurrent p s d.batches b
    → eqb_ℤ d.remaining (pos 0) ≡ false
    → deduct_fifo (b ∷ bs) d ≡ deduct_fifo bs (after_round b d)
unfolding deduct_fifo
deduct_fifo-round p s b bs d u more =
    let done =
      update-ok batch_key b.id (set_quantity (b.quantity -ℤ min_ℤ b.quantity d.remaining)) d.batches
        (λ r. refl) u.found in
    ground (arith, done)

round-Drained :
    (p s : ℕ) (b : Batch) (d : Deduction)
    → Distinct batch_key d.batches
    → All NonNeg d.batches
    → pos 0 ≤ℤ d.remaining
    → IsCurrent p s d.batches b
    → Drained p s (b ∷ []) d (after_round b d)
round-Drained p s b d u nn r c =
    let q = b.quantity -ℤ min_ℤ b.quantity d.remaining in
    let keeps = set_quantity-KeepsPlace q in
    let least = min_ℤ_parts b.quantity d.remaining in
    record {
      distinct =
          Distinct-update_where batch_key (has_id batch_key b.id) (set_quantity q) d.batches
            (λ x. refl) u;
      nonneg =
          All-update_where NonNeg (has_id batch_key b.id) (set_quantity q) d.batches
            (λ x h. omega (int_laws, min_ℤ-le_left b.quantity d.remaining)) nn;
      taken = omega (
        int_laws,
        parts_of_eq (sum-patch p s (set_quantity q) keeps b.id d.batches u c.found c.here),
      );
      others = λ p' s' other.
          sum-patch_other p' s' (set_quantity q) keeps b.id d.batches u c.found (other b c.here);
      rest = omega (int_laws, min_ℤ-le_right b.quantity d.remaining);
      less =
          let some_stock : pos 0 ≤ℤ b.quantity = omega (arith, c.stocked) in
          omega (int_laws, min_ℤ-nonneg b.quantity d.remaining some_stock r);
      enough = elim least [
        | inl (e, _) ↦ inr (rw e (omega int_laws))
        | inr (e, _) ↦ inl (rw e (omega int_laws))
      ];
    }

deduct_fifo-done :
    (b : Batch) (bs : List Batch) (d : Deduction)
    → eqb_ℤ d.remaining (pos 0) ≡ true
    → deduct_fifo (b ∷ bs) d ≡ ok d
unfolding deduct_fifo
deduct_fifo-done b bs d h = ground arith

Drained-join :
    (p s : ℕ) (b : Batch) (bs : List Batch) (d e f : Deduction)
    → Drained p s (b ∷ []) d e
    → Drained p s bs e f
    → Drained p s (b ∷ bs) d f
Drained-join p s b bs d e f one many = record {
  distinct = many.distinct;
  nonneg = many.nonneg;
  taken = omega (int_laws, parts_of_eq one.taken, parts_of_eq many.taken);
  others = λ p' s' o. many.others p' s' o ∙ one.others p' s' o;
  rest = many.rest;
  less = omega (arith, one.less, many.less);
  enough = elim many.enough [
    | inl none_left ↦ inl none_left
    | inr used ↦ elim one.enough [
      | inl e0 ↦ inl (omega (int_laws, many.rest, many.less, parts_of_eq e0))
      | inr used_b ↦ inr (omega (int_laws, parts_of_eq used, parts_of_eq used_b))
    ]
  ];
}

pub deduct_fifo-Drained :
    (p s : ℕ) (bs : List Batch) (d : Deduction)
    → Distinct batch_key d.batches
    → All NonNeg d.batches
    → pos 0 ≤ℤ d.remaining
    → Distinct batch_key bs
    → All (IsCurrent p s d.batches) bs
    → (d' : Deduction) × (deduct_fifo bs d ≡ ok d') × Drained p s bs d d'
deduct_fifo-Drained p s [] d u nn r v cs = (
  d,
  unfold deduct_fifo in refl,
  record {
    distinct = u;
    nonneg = nn;
    taken = refl;
    others = λ p' s' o. refl;
    rest = r;
    less = omega arith;
    enough = inr (omega int_laws);
  },
)
deduct_fifo-Drained p s (b ∷ bs) d u nn r v cs = elim (Bool-cases (eqb_ℤ d.remaining (pos 0))) [
  | inl done ↦ (
    d,
    deduct_fifo-done b bs d done,
    record {
      distinct = u;
      nonneg = nn;
      taken = refl;
      others = λ p' s' o. refl;
      rest = r;
      less = omega arith;
      enough = inl (eqb_ℤ→eq d.remaining (pos 0) done);
    },
  )
  | inr more ↦
      let one = round-Drained p s b d u nn r cs.0 in
      let later =
        All-map _ (IsCurrent p s (after_round b d).batches) bs
          (λ c h.
            IsCurrent-patch p s b.id (b.quantity -ℤ min_ℤ b.quantity d.remaining) d.batches c h)
          (All-both _ _ bs cs.1 v.0) in
      let (d', run, many) =
        deduct_fifo-Drained p s bs (after_round b d) one.distinct one.nonneg one.rest v.1 later in
      (
        d',
        deduct_fifo-round p s b bs d cs.0 more ∙ run,
        Drained-join p s b bs d (after_round b d) d' one many,
      )
]
