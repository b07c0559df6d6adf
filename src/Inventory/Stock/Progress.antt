-- ===== src/Inventory/Stock/Progress.antt =====
-- src/modules/inventory/services: where a stock-out on sound tables does succeed.
use radha_backend.Prelude.{
  ℕ, ◌≡◌, refl, sym, ap, ◌∙◌, Option, none, some, List, ◌∷◌, arith, inl, inr, Bool-cases, ==_refl,
  ◌==◌, ◌||◌, ltb, ok, Succeeds, Succeeds->>=, throw_if, business, value_out_of_range,
  insufficient_stock,
}
use radha_backend.Prelude.Int.{
  ℤ, pos, ◌≤ℤ◌, ◌<ℤ◌, ltb_ℤ, leb_ℤ, int_laws, parts_of_eq, ltb_ℤ-false, leb_ℤ-false,
}
use radha_backend.Prelude.Table.{find_by_id, has_id, update}
use radha_backend.Prelude.Table.Laws.{
  find→find_by_id, find-update_where, update-ok, All-find, map_option, patch,
}
use radha_backend.Inventory.Types.{Item, Rule, Alert, Tables, Fresh, StockOutInput, Movement}
use radha_backend.Inventory.Repositories.{
  item_at, find_by_product_and_store, sum_quantity, find_applicable_rule, create_if_not_active,
  resolve_for_item,
}
use radha_backend.Inventory.Alerts.{
  mark_low, relabel, keep_labels, new_alert, raise_alert, clear_alert, check_rule, check_and_create,
}
use radha_backend.Inventory.Movement.{quantity_of, own_item, truthy, record_movement}
use radha_backend.Inventory.Movement.Outbound.{deduct, item_out, apply_stock_out, stock_out}
use radha_backend.Inventory.Stock.Labels.{item_key}
use radha_backend.Inventory.Stock.Outflow.{deduct-Succeeds}
use radha_backend.Inventory.Stock.Sound.{IsSound, IsAvailable}

module _ (fr : Fresh) (i : Item) (t : Tables) {j : Item}
    (there : find_by_id item_key i.id t.items ≡ some j) where
  relabel-Succeeds :
      (flag : ℕ) (threshold : ℤ) (alerts : List Alert) (n : ℕ)
      → Succeeds (relabel flag threshold i alerts n t)
  unfolding relabel
  relabel-Succeeds flag threshold alerts n =
      Succeeds->>= (update item_key i.id (mark_low flag threshold) t.items) _
        (update-ok item_key i.id (mark_low flag threshold) t.items (λ r. refl) there) (_, refl)

  raise_alert-Succeeds : (rule : Rule) → Succeeds (raise_alert fr rule i t)
  unfolding raise_alert keep_labels
  raise_alert-Succeeds rule =
      let alert = create_if_not_active (new_alert fr rule i) t.alerts in
      elim (Bool-cases alert.1) [
        | inl created ↦ rw created (relabel-Succeeds 1 rule.threshold alert.0 1)
        | inr present ↦ rw present (_, refl)
      ]

  clear_alert-Succeeds : (rule : Rule) → Succeeds (clear_alert fr rule i t)
  unfolding clear_alert keep_labels
  clear_alert-Succeeds rule =
      let resolved = resolve_for_item i.product_id i.store_id fr.now t.alerts in
      elim (Bool-cases (ltb 0 resolved.1 || i.is_low_stock == 1)) [
        | inl low ↦ rw low (relabel-Succeeds 0 rule.threshold resolved.0 0)
        | inr clear ↦ rw clear (_, refl)
      ]

  check_rule-Succeeds : (rule : Option Rule) → Succeeds (check_rule fr rule i t)
  check_rule-Succeeds none = (_, refl)
  check_rule-Succeeds (some rule) = elim (Bool-cases (rule.enabled == 1)) [
    | inr off ↦ rw off (_, refl)
    | inl on ↦ elim (Bool-cases (leb_ℤ i.quantity rule.threshold)) [
      | inl low ↦ rw (on, low) (raise_alert-Succeeds rule)
      | inr high ↦ rw (on, high) (clear_alert-Succeeds rule)
    ]
  ]

pub record_movement-Succeeds :
    (fr : Fresh) (m : Movement) (i : Item) (t : Tables) {j : Item}
    → find_by_id item_key i.id t.items ≡ some j
    → Succeeds (record_movement fr m i t)
unfolding record_movement check_and_create
record_movement-Succeeds fr m i t {j} there =
    let t' : Tables = record t { movements = m ∷ t.movements } in
    let (checked, run) =
      check_rule-Succeeds fr i t' {j = j} there
        (find_applicable_rule i.product_id i.store_id none t.rules) in
    Succeeds->>= (check_and_create fr i t') _ run (_, refl)

available-le :
    (t : Tables) (p s : ℕ) {i : Item}
    → IsSound t
    → find_by_product_and_store p s t.items ≡ some i
    → i.available_quantity ≤ℤ sum_quantity p s t.batches
unfolding find_by_product_and_store
available-le t p s {i} sound found =
    let avail = All-find IsAvailable (item_at p s) t.items sound.availability found in
    let whole : i.quantity ≡ sum_quantity p s t.batches =
      ap quantity_of (sym found) ∙ sound.reconciled p s in
    omega (int_laws, avail.0, parts_of_eq avail.1, parts_of_eq whole)

pub own_item-own :
    (tenant : ℕ) (i : Item) {o : Option Item}
    → o ≡ some i
    → i.tenant_id ≡ tenant
    → own_item tenant o ≡ ok i
own_item-own tenant i found own = rw (found, own) (rw (==_refl tenant))

-- On sound tables, a tenant's stock-out that pins no batch succeeds whenever the quantity is
-- positive and at most what is available of the tenant's item: the check for desynchronised
-- batches never fails then.
pub stock_out-Succeeds :
    (fr : Fresh) (tenant user : ℕ) (input : StockOutInput) (t : Tables) {i : Item}
    → IsSound t
    → truthy input.batch_number ≡ none
    → find_by_product_and_store input.product_id input.store_id t.items ≡ some i
    → i.tenant_id ≡ tenant
    → pos 0 <ℤ input.quantity
    → input.quantity ≤ℤ i.available_quantity
    → Succeeds (stock_out fr tenant user input t)
unfolding stock_out apply_stock_out find_by_product_and_store
stock_out-Succeeds fr tenant user input t {i} sound unpinned found own positive enough =
    let (d, deducted) =
      deduct-Succeeds input.product_id input.store_id input.quantity t.batches sound.batch_keys
        sound.batches_nonneg (omega (arith, positive))
        (omega (arith, enough, available-le t input.product_id input.store_id sound found)) in
    let there =
      find→find_by_id item_key (item_at input.product_id input.store_id) t.items sound.item_keys
        found in
    let updated =
      update-ok item_key i.id (item_out fr.now input.quantity i) t.items (λ j. refl) there in
    let still =
      find-update_where (has_id item_key i.id) (has_id item_key i.id)
        (item_out fr.now input.quantity i) t.items (λ j. refl)
      ∙ ap (map_option (patch (has_id item_key i.id) (item_out fr.now input.quantity i))) there in
    Succeeds->>= (throw_if (leb_ℤ input.quantity (pos 0)) (business value_out_of_range)) _ {a = tt}
      (rw (leb_ℤ-false input.quantity (pos 0) positive))
      (Succeeds->>=
        (own_item tenant (find_by_product_and_store input.product_id input.store_id t.items)) _
        {a = i} (own_item-own tenant i found own)
        (Succeeds->>=
          (throw_if (ltb_ℤ i.available_quantity input.quantity) (business insufficient_stock)) _
          {a = tt} (rw (ltb_ℤ-false i.available_quantity input.quantity enough))
          (Succeeds->>=
            (deduct input.product_id input.store_id input.quantity (truthy input.batch_number)
              t.batches)
            _ {a = d} (rw unpinned deducted)
            (Succeeds->>= (update item_key i.id (item_out fr.now input.quantity i) t.items) _
              updated (record_movement-Succeeds fr _ _ _ still)))))
