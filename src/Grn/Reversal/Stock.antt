-- ===== src/Grn/Reversal/Stock.antt =====
-- src/modules/grn/services/grn-reversal.service.ts: what a reversal takes out of the stock.
use radha_backend.Prelude.{
  ℕ, String, ◌+◌, ◌≡◌, refl, ap, ◌∙◌, Bool, false, ◌&&◌, Option, none, some, List, [], ◌∷◌, arith,
  inl, inr, Bool-cases, Result-cases, ok, >>=-ok_then, ◌==◌, if◌then◌else◌, select, length, is_some,
}
use radha_backend.Prelude.Int.{ℤ, pos, ◌+ℤ◌, int_laws, parts_of_eq}
use radha_backend.Inventory.Types.{Tables, Fresh, MovementResult}
use radha_backend.Inventory.Repositories.{batch_at, is_key}
use radha_backend.Inventory.Movement.Outbound.{stock_out}
use radha_backend.Inventory.Service.{
  MovementRequest, MovementReceipt, outbound_input, apply_outbound,
}
use radha_backend.Inventory.Stock.Fifo.{IsOther}
use radha_backend.Inventory.Stock.Sound.{IsSound}
use radha_backend.Inventory.Stock.StockOut.{stock_out-IsSound, stock_out-TakenOut}
use radha_backend.Inventory.Stock.Adjusting.{quantity_at}
use radha_backend.Grn.{GrnItem}
use radha_backend.Grn.Reversal.{
  Reverted, counted_line, reversal_request, revert_product, revert_line, revert_lines,
}

-- The line is of the product and store.
abbrev pub line_at : ℕ → ℕ → GrnItem → Bool
line_at p s l = is_key l.product_id p && l.store_id == s

-- What the lines take out of the stock of a product and store.
abbrev pub taken_back : ℕ → ℕ → List GrnItem → ℤ
taken_back p s [] = pos 0
taken_back p s (l ∷ ls) =
    let rest = taken_back p s ls in if line_at p s l then l.quantity +ℤ rest else rest

abbrev pub has_product : GrnItem → Bool
has_product l = is_some l.product_id

-- From `inv` to `inv'` the lines are taken out of the stock.
pub record TakenBack (ls : List GrnItem) (inv inv' : Tables) : Type 0 where
  pub sound : IsSound inv'
  pub taken : (p s : ℕ) → quantity_at p s inv' +ℤ taken_back p s ls ≡ quantity_at p s inv

places-IsOther : (p s p' s' : ℕ) → ((p == p') && (s == s')) ≡ false → IsOther p s p' s'
unfolding batch_at
places-IsOther p s p' s' differ b at = ground (arith, differ, at)

apply_outbound-ok :
    (key_text : ℕ → String) (fr : Fresh) (req : MovementRequest) (t : Tables) {t' : Tables}
    {r : MovementReceipt}
    → apply_outbound key_text fr req t ≡ ok (t', r)
    → (res : MovementResult) × (stock_out fr req.tenant_id req.actor_id
          (outbound_input key_text req)
          t
        ≡ ok (t', res))
unfolding apply_outbound
apply_outbound-ok key_text fr req t {t'} {r} e =
    >>=-ok_then (stock_out fr req.tenant_id req.actor_id (outbound_input key_text req) t) _ e
      λ (t1, res) done rest.
        let same : t1 ≡ t' = ground arith in (res, done ∙ ap (λ (u : Tables). ok (u, res)) same)

add-nothing : (a : ℤ) → a +ℤ pos 0 ≡ a
add-nothing a = omega int_laws

taken-cons :
    (l : GrnItem) (ls : List GrnItem) (p s : ℕ) (a b c : ℤ)
    → b +ℤ taken_back p s (l ∷ []) ≡ a
    → c +ℤ taken_back p s ls ≡ b
    → c +ℤ taken_back p s (l ∷ ls) ≡ a
taken-cons l ls p s a b c h k = elim (Bool-cases (line_at p s l)) [
  | inl e ↦ rw e (omega (int_laws, parts_of_eq (rw e at h), parts_of_eq k))
  | inr e ↦ rw e (omega (int_laws, parts_of_eq (rw e at h), parts_of_eq k))
]

length-select_cons :
    (l : GrnItem) (ls : List GrnItem)
    → length (select has_product (l ∷ ls))
      ≡ (if has_product l then 1 else 0) + length (select has_product ls)
length-select_cons l ls = ground arith

module _ (fr : ℕ → Fresh) (key_text : ℕ → String) (tenant user grn_id : ℕ) where
  revert_product-TakenBack :
      (l : GrnItem) (o : Option ℕ) (inv inv' : Tables) (k k' : Reverted)
      → IsSound inv
      → l.product_id ≡ o
      → revert_product fr key_text tenant user grn_id l o inv k ≡ ok (inv', k')
      → TakenBack (l ∷ []) inv inv' × (k'.inventory ≡ (if is_some o then 1 else 0) + k.inventory)
  revert_product-TakenBack l none inv inv' k k' sound product e =
      let tables : inv' ≡ inv = ground arith in
      let tally : k' ≡ k = ground arith in
      rw (tables, tally)
        (
          record { sound = sound; taken = λ p s. rw product (add-nothing (quantity_at p s inv)) },
          omega arith,
        )
  revert_product-TakenBack l (some p0) inv inv' k k' sound product e =
      let req = reversal_request fr key_text tenant user grn_id p0 l in
      >>=-ok_then (apply_outbound key_text (fr l.id) req inv) _ e λ (inv1, receipt) applied rest.
        let tables : inv' ≡ inv1 = ground arith in
        let tally : k' ≡ counted_line l k = ground arith in
        let (res, out) = apply_outbound-ok key_text (fr l.id) req inv applied in
        let after =
          stock_out-IsSound (fr l.id) tenant user (outbound_input key_text req) inv sound out in
        let (i, found, own, positive, enough, done) =
          stock_out-TakenOut (fr l.id) tenant user (outbound_input key_text req) inv sound out in
        rw (tables, tally)
          (
            record {
              sound = after;
              taken = λ p s. elim (Bool-cases ((p0 == p) && (l.store_id == s))) [
                | inl here ↦
                    let (this, there) : (p0 ≡ p) × (l.store_id ≡ s) = ground (arith, here) in
                    rw (after.reconciled p s, sound.reconciled p s, product, here)
                      (rw (← this, ← there) (omega (int_laws, parts_of_eq done.batch_quantity)))
                | inr away ↦
                    rw (after.reconciled p s, sound.reconciled p s, product, away)
                      (add-nothing _ ∙ done.other_items p s (places-IsOther p0 l.store_id p s away))
              ];
            },
            omega arith,
          )

  revert_line-TakenBack :
      (l : GrnItem) (inv inv' : Tables) (k k' : Reverted)
      → IsSound inv
      → revert_line fr key_text tenant user grn_id l inv k ≡ ok (inv', k')
      → TakenBack (l ∷ []) inv inv'
        × (k'.inventory ≡ (if has_product l then 1 else 0) + k.inventory)
  unfolding revert_line
  revert_line-TakenBack l inv inv' k k' sound e =
      revert_product-TakenBack l l.product_id inv inv' k k' sound refl e

  -- The loop that ends well has taken out every line that has a product.
  pub revert_lines-TakenBack :
      (ls : List GrnItem) (inv inv' : Tables) (k k' : Reverted)
      → IsSound inv
      → revert_lines fr key_text tenant user grn_id ls inv k ≡ (inv', ok k')
      → TakenBack ls inv inv' × (k'.inventory ≡ length (select has_product ls) + k.inventory)
  unfolding revert_lines
  revert_lines-TakenBack [] inv inv' k k' sound e =
      let tables : inv' ≡ inv = ground arith in
      let tally : k' ≡ k = ground arith in
      rw (tables, tally)
        (record { sound = sound; taken = λ p s. add-nothing (quantity_at p s inv) }, omega arith)
  revert_lines-TakenBack (l ∷ ls) inv inv' k k' sound e =
      elim (Result-cases (revert_line fr key_text tenant user grn_id l inv k)) [
        | inl (x, failed) ↦ let stopped = rw (revert_lines, failed) at e in cc
        | inr ((inv1, k1), passed) ↦
            let first = revert_line-TakenBack l inv inv1 k k1 sound passed in
            let rest =
              revert_lines-TakenBack ls inv1 inv' k1 k' first.0.sound
                (rw (revert_lines, passed) at e) in
            (
              record {
                sound = rest.0.sound;
                taken = λ p s. taken-cons l ls p s _ _ _ (first.0.taken p s) (rest.0.taken p s);
              },
              omega (arith, first.1, rest.1, length-select_cons l ls),
            )
      ]
