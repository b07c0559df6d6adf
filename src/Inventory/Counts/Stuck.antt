-- ===== src/Inventory/Counts/Stuck.antt =====
-- src/modules/inventory/services/stock-count.service.ts: `recordLine` accepts a product that the store
-- has no item of, and `complete` then fails.
use radha_backend.Prelude.{
  ℕ, String, ◌≡◌, refl, sym, ap, ◌∙◌, Bool, true, false, not, ◌&&◌, Option, none, some, List, [],
  ◌∷◌, arith, inl, inr, Bool-cases, any, find, is_some, Failure, Result, Result-cases, ok, err,
  >>=-ok_then, throw_if, business, business_rule_violation,
}
use radha_backend.Prelude.Int.{ℤ, pos, eqb_ℤ}
use radha_backend.Prelude.Table.{has_id, update}
use radha_backend.Prelude.Table.Laws.{Distinct, find-update_where, map_option}
use radha_backend.Inventory.Types.{Item, Tables, Fresh}
use radha_backend.Inventory.Repositories.{item_at, find_by_product_and_store}
use radha_backend.Inventory.Alerts.{mark_low}
use radha_backend.Inventory.Movement.Adjust.{adjust, item_adjusted}
use radha_backend.Inventory.Stock.Labels.{item_key, Relabelled, same, labelled}
use radha_backend.Inventory.Stock.Sound.{patch-find}
use radha_backend.Inventory.Stock.Adjusting.{adjust-AdjustRun, item_adjusted-KeepsItem}
use radha_backend.Inventory.Counts.{
  Count, Line, CountTables, line_key, completed, cancelled, same_count_status, find_by_count,
  find_by_id_in_tenant,
}
use radha_backend.Inventory.Counts.Workflow.{
  Tally, no_variances, adjustment_of, settle_line, settle_lines, complete_in_transaction,
  complete_count,
}
use radha_backend.Inventory.Counts.Stocktake.{varies, settle_line-LineSettled}

-- There is an item of the product in the store.
abbrev is_stocked : ℕ → ℕ → Tables → Bool
is_stocked p s t = is_some (find_by_product_and_store p s t.items)

-- The line varies, and its product has no item in the store of the count.
abbrev pub is_stuck : Count → Tables → Line → Bool
is_stuck c t l = varies l && not (is_stocked l.product_id c.store_id t)

is_some-map_option : (f : Item → Item) (o : Option Item) → is_some (map_option f o) ≡ is_some o
is_some-map_option f none = refl
is_some-map_option f (some i) = refl

Relabelled-is_some :
    (p s : ℕ) {items items' : List Item}
    → Relabelled items items'
    → is_some (find_by_product_and_store p s items') ≡ is_some (find_by_product_and_store p s items)
unfolding find_by_product_and_store item_at
Relabelled-is_some p s same = refl
Relabelled-is_some p s {items} (labelled id flag threshold) =
    ap is_some (
      find-update_where (item_at p s) (has_id item_key id) (mark_low flag threshold) items
        (λ r. refl))
    ∙ is_some-map_option _ (find (item_at p s) items)

module _ (fr : ℕ → Fresh) (note : ℕ → ℤ → String) (tenant user : ℕ) (c : Count) where
  -- A pass that succeeds met no line that is stuck, and neither adds nor removes an item.
  settle_line-is_stocked :
      (l : Line) (t t' : CountTables) (k k' : Tally)
      → Distinct item_key t.stock.items
      → settle_line fr note tenant user c l t k ≡ ok (t', k')
      → (is_stuck c t.stock l ≡ false)
        × ((p s : ℕ) → is_stocked p s t'.stock ≡ is_stocked p s t.stock)
  unfolding settle_line
  settle_line-is_stocked l t t' k k' keys e = elim (Bool-cases (eqb_ℤ l.variance (pos 0))) [
    | inl nil ↦
        let done : ◌≡◌ {A = Result (CountTables × Tally)} (ok (t, k)) (ok (t', k')) = rw nil at e in
        let tables : t' ≡ t = ground arith in
        (rw nil refl, λ p s. ap (λ (u : CountTables). is_stocked p s u.stock) tables)
    | inr off ↦
        >>=-ok_then (adjust (fr l.id) tenant user (adjustment_of note c l) t.stock) _ (rw off at e)
          λ adjusted adjusting e1.
            >>=-ok_then
              (update line_key l.id
                (λ (r : Line). record r { adjustment_movement_id = some adjusted.1.movement.id })
                t.lines)
              _ e1
              λ line marking e2.
                let run =
                  adjust-AdjustRun (fr l.id) tenant user (adjustment_of note c l) t.stock keys
                    adjusting in
                let write = item_adjusted (fr l.id).now l.counted_quantity run.existing in
                let keeps = item_adjusted-KeepsItem (fr l.id).now l.counted_quantity run.existing in
                let tables : t' ≡ record t { lines = line.0; stock = adjusted.0 } = ground arith in
                (
                  rw (off, run.found) refl,
                  λ p s.
                      ap (λ (u : CountTables). is_stocked p s u.stock) tables
                      ∙ Relabelled-is_some p s run.recorded.items
                      ∙ ap is_some (patch-find write keeps p s run.existing.id t.stock.items)
                      ∙ is_some-map_option _ (find_by_product_and_store p s t.stock.items),
                )
  ]

  any-is_stuck :
      (ls : List Line) (t t' : Tables)
      → ((p s : ℕ) → is_stocked p s t' ≡ is_stocked p s t)
      → any (is_stuck c t') ls ≡ any (is_stuck c t) ls
  any-is_stuck [] t t' h = refl
  any-is_stuck (l ∷ ls) t t' h = rw (h l.product_id c.store_id, any-is_stuck ls t t' h) refl

  settle_lines-is_stuck :
      (ls : List Line) (t t' : CountTables) (k k' : Tally)
      → Distinct item_key t.stock.items
      → settle_lines fr note tenant user c ls t k ≡ ok (t', k')
      → any (is_stuck c t.stock) ls ≡ false
  unfolding settle_lines
  settle_lines-is_stuck [] t t' k k' keys e = refl
  settle_lines-is_stuck (l ∷ ls) t t' k k' keys e =
      >>=-ok_then (settle_line fr note tenant user c l t k) _ e λ (t1, k1) first rest.
        let (free, kept) = settle_line-is_stocked l t t1 k k1 keys first in
        let one = settle_line-LineSettled fr note tenant user c l t t1 k k1 keys first in
        let more = settle_lines-is_stuck ls t1 t' k1 k' one.item_keys rest in
        rw free (sym (any-is_stuck ls t.stock t1.stock kept) ∙ more)

module _ (fr : ℕ → Fresh) (note : ℕ → ℤ → String) (tenant user : ℕ) where
  -- On items with distinct keys, a count with a line that varies for a product that the count's store
  -- has no item of cannot be completed, whatever its other lines are.
  pub complete_count-is_stuck :
      (now count_id : ℕ) (t : CountTables) {c : Count}
      → Distinct item_key t.stock.items
      → find_by_id_in_tenant count_id tenant t.counts ≡ some c
      → any (is_stuck c t.stock) (find_by_count c.id t.lines) ≡ true
      → (e : Failure) × (complete_count fr note tenant user now count_id t ≡ err e)
  unfolding complete_count complete_in_transaction
  complete_count-is_stuck now count_id t {c} keys found stuck =
      elim (Result-cases (complete_count fr note tenant user now count_id t)) [
        | inl failed ↦ failed
        | inr (done, succeeded) ↦
            let ran = rw found at succeeded in
            >>=-ok_then
              (throw_if (same_count_status c.status completed) (business business_rule_violation)) _
              ran
              λ _ first e1.
                >>=-ok_then
                  (throw_if (same_count_status c.status cancelled)
                    (business business_rule_violation))
                  _ e1
                  λ _ second e2.
                    >>=-ok_then
                      (settle_lines fr note tenant user c (find_by_count c.id t.lines) t
                        no_variances)
                      _ e2
                      λ (t1, k) settled e3.
                        let free =
                          settle_lines-is_stuck fr note tenant user c (find_by_count c.id t.lines) t
                            t1 no_variances k keys settled in
                        let clash : true ≡ false = sym stuck ∙ free in cc
      ]
