-- ===== src/Inventory/Stock/Outflow.antt =====
-- src/modules/inventory/services/stock-movement.service.ts: a stock-out that succeeds keeps the
-- tables sound, and takes its quantity from the batches and from the item alike.
use radha_backend.Prelude.{
  ℕ, ◌≡◌, refl, subst, true, ◌&&◌, Option, none, some, List, arith, inl, inr, Option-cases, All,
  String, ok, >>=-eq-ok, throw_if, throw_if-ok, business, insufficient_stock,
}
use radha_backend.Prelude.Int.{
  ℤ, pos, ◌+ℤ◌, ◌-ℤ◌, ◌≤ℤ◌, ltb_ℤ, int_laws, parts_of_eq, ltb_ℤ-ge, ltb_ℤ-false,
}
use radha_backend.Prelude.Table.{update_where, has_id, update}
use radha_backend.Prelude.Table.Laws.{
  Distinct, find→find_by_id, find-holds, update-inv, Distinct-update_where, All-update_where,
}
use radha_backend.Inventory.Types.{Batch}
use radha_backend.Inventory.Repositories.{
  batch_at, find_by_batch_number, find_fifo_batches, sum_quantity, is_number,
}
use radha_backend.Inventory.Movement.Outbound.{Deduction, deduct, deduct_pinned, set_quantity}
use radha_backend.Inventory.Stock.Sums.{batch_key, sum-patch, sum-patch_other}
use radha_backend.Inventory.Stock.Fifo.{
  NonNeg, IsOther, deduct_fifo-Drained, set_quantity-KeepsPlace,
}
use radha_backend.Inventory.Stock.Snapshot.{find_fifo_batches-IsSnapshot}

-- What a deduction of `q` from the batches of (p, s) did.
pub record Deducted (p s : ℕ) (q : ℤ) (bs bs' : List Batch) : Type 0 where
  pub distinct : Distinct batch_key bs'
  pub nonneg : All NonNeg bs'
  pub taken : sum_quantity p s bs' +ℤ q ≡ sum_quantity p s bs
  pub others : (p' s' : ℕ) → IsOther p s p' s' → sum_quantity p' s' bs' ≡ sum_quantity p' s' bs

deduct_pinned-Deducted :
    (p s : ℕ) (q : ℤ) (n : String) (bs : List Batch) {d : Deduction}
    → Distinct batch_key bs
    → All NonNeg bs
    → deduct_pinned q (find_by_batch_number p s n bs) bs ≡ ok d
    → Deducted p s q bs d.batches
unfolding find_by_batch_number
deduct_pinned-Deducted p s q n bs {d} u nn e = elim (Option-cases (find_by_batch_number p s n bs)) [
  | inl missing ↦ absurd (ground (arith, missing))
  | inr (b, found) ↦
      let run : deduct_pinned q (some b) bs ≡ ok d = rw found at e in
      let (_, enough, run') = >>=-eq-ok (throw_if (ltb_ℤ b.quantity q) _) _ run in
      let ((bs', c), updated, done) =
        >>=-eq-ok (update batch_key b.id (set_quantity (b.quantity -ℤ q)) bs) _ run' in
      let written =
        update-inv batch_key b.id (set_quantity (b.quantity -ℤ q)) bs (λ r. refl) updated in
      let table : d.batches
          ≡ update_where (has_id batch_key b.id) (set_quantity (b.quantity -ℤ q)) bs =
        ground (arith, written.0, done) in
      let holds = find-holds (λ c. batch_at p s c && is_number c.batch_number n) bs found in
      let here : batch_at p s b ≡ true = ground (arith, holds) in
      let key = find→find_by_id batch_key _ bs u found in
      let fits : q ≤ℤ b.quantity = ltb_ℤ-ge b.quantity q (throw_if-ok _ _ enough) in
      let keeps = set_quantity-KeepsPlace (b.quantity -ℤ q) in
      rw table (record {
        distinct =
            Distinct-update_where batch_key _ (set_quantity (b.quantity -ℤ q)) bs (λ r. refl) u;
        nonneg =
            All-update_where NonNeg _ (set_quantity (b.quantity -ℤ q)) bs
              (λ r h. omega (int_laws, fits)) nn;
        taken = omega (
          int_laws,
          parts_of_eq (sum-patch p s (set_quantity (b.quantity -ℤ q)) keeps b.id bs u key here),
        );
        others = λ p' s' o.
            sum-patch_other p' s' (set_quantity (b.quantity -ℤ q)) keeps b.id bs u key (o b here);
      })
]

deduct_fifo-Deducted :
    (p s : ℕ) (q : ℤ) (bs : List Batch) {d : Deduction}
    → Distinct batch_key bs
    → All NonNeg bs
    → pos 0 ≤ℤ q
    → deduct p s q none bs ≡ ok d
    → Deducted p s q bs d.batches
unfolding deduct
deduct_fifo-Deducted p s q bs {d} u nn r e =
    let start : Deduction = record { remaining = q; batches = bs; first = none } in
    let snap = find_fifo_batches-IsSnapshot p s bs u nn in
    let (d', run, drained) =
      deduct_fifo-Drained p s (find_fifo_batches p s bs) start u nn r snap.distinct snap.current in
    let (_, spent, done) =
      >>=-eq-ok (throw_if (ltb_ℤ (pos 0) d'.remaining) (business insufficient_stock)) _
        (rw run at e) in
    let none_left = ltb_ℤ-ge (pos 0) d'.remaining (throw_if-ok _ _ spent) in
    let final : d' ≡ d = ground (arith, done) in
    subst (λ x. Deducted p s q bs x.batches) final
      (record {
        distinct = drained.distinct;
        nonneg = drained.nonneg;
        taken = omega (int_laws, parts_of_eq drained.taken, none_left, drained.rest);
        others = drained.others;
      })

-- The batches hold enough, so the FIFO loop takes it all.
pub deduct-Succeeds :
    (p s : ℕ) (q : ℤ) (bs : List Batch)
    → Distinct batch_key bs
    → All NonNeg bs
    → pos 0 ≤ℤ q
    → q ≤ℤ sum_quantity p s bs
    → (d : Deduction) × (deduct p s q none bs ≡ ok d)
unfolding deduct
deduct-Succeeds p s q bs u nn r enough =
    let start : Deduction = record { remaining = q; batches = bs; first = none } in
    let snap = find_fifo_batches-IsSnapshot p s bs u nn in
    let (d', run, drained) =
      deduct_fifo-Drained p s (find_fifo_batches p s bs) start u nn r snap.distinct snap.current in
    let none_left : d'.remaining ≤ℤ pos 0 = elim drained.enough [
      | inl e ↦ omega (arith, parts_of_eq e)
      | inr e ↦ omega (int_laws, parts_of_eq e, parts_of_eq snap.all_stock, enough)
    ] in
    (d', rw run (rw (ltb_ℤ-false (pos 0) d'.remaining none_left)))

pub deduct-Deducted :
    (p s : ℕ) (q : ℤ) (n : Option String) (bs : List Batch) {d : Deduction}
    → Distinct batch_key bs
    → All NonNeg bs
    → pos 0 ≤ℤ q
    → deduct p s q n bs ≡ ok d
    → Deducted p s q bs d.batches
unfolding deduct
deduct-Deducted p s q none bs u nn r e = deduct_fifo-Deducted p s q bs u nn r e
deduct-Deducted p s q (some n) bs u nn r e = deduct_pinned-Deducted p s q n bs u nn e
