-- ===== src/Inventory/Stock/Labels.antt =====
-- src/modules/inventory/services/low-stock-alert.service.ts: the alert check changes no quantity.
-- It leaves the items as they are, or rewrites the low-stock labels of one.
use radha_backend.Prelude.{
  ℕ, ◌≡◌, refl, subst, find, Bool, Option, none, some, List, ◌∷◌, arith, inl, inr, Bool-cases, All,
  ◌==◌, ◌||◌, ltb, ok, >>=-eq-ok,
}
use radha_backend.Prelude.Int.{ℤ, leb_ℤ}
use radha_backend.Prelude.Table.{update_where, has_id, update}
use radha_backend.Prelude.Table.Laws.{
  Distinct, update-inv, Distinct-update_where, All-update_where, find-update_where, patch,
  map_option,
}
use radha_backend.Inventory.Types.{Item, Rule, Alert, Tables, Fresh, Movement, MovementResult}
use radha_backend.Inventory.Repositories.{
  find_applicable_rule, item_at, find_by_product_and_store, create_if_not_active, resolve_for_item,
}
use radha_backend.Inventory.Alerts.{
  mark_low, new_alert, relabel, keep_labels, raise_alert, clear_alert, check_rule, check_and_create,
}
use radha_backend.Inventory.Movement.{quantity_of, record_movement}

abbrev pub item_key : Item → ℕ
item_key i = i.id

pub data Relabelled (items : List Item) : List Item → Type 0 where
  same : Relabelled items items
  labelled :
      (id flag : ℕ) (threshold : ℤ)
      → Relabelled items (update_where (has_id item_key id) (mark_low flag threshold) items)

-- What the tables keep through the alert check.
pub record KeepsStock (t t' : Tables) : Type 0 where
  pub items : Relabelled t.items t'.items
  pub batches : t'.batches ≡ t.batches
  pub movements : t'.movements ≡ t.movements
  pub rules : t'.rules ≡ t.rules

update-Relabelled :
    (id flag : ℕ) (threshold : ℤ) (items : List Item) {items' : List Item} {i : Item}
    → update item_key id (mark_low flag threshold) items ≡ ok (items', i)
    → Relabelled items items'
update-Relabelled id flag threshold items e =
    let done = update-inv item_key id (mark_low flag threshold) items (λ r. refl) e in
    rw done.0 (labelled id flag threshold)

relabel-KeepsStock :
    (flag : ℕ) (threshold : ℤ) (i : Item) (alerts : List Alert) (k : ℕ) (t t' : Tables) {n : ℕ}
    → relabel flag threshold i alerts k t ≡ ok (t', n)
    → KeepsStock t t'
unfolding relabel
relabel-KeepsStock flag threshold i alerts k t t' e =
    let ((items', j), updated, done) =
      >>=-eq-ok (update item_key i.id (mark_low flag threshold) t.items) _ e in
    let written : t' ≡ record t { items = items'; alerts = alerts } = ground arith in
    rw written (record {
      items = update-Relabelled i.id flag threshold t.items updated;
      batches = refl;
      movements = refl;
      rules = refl;
    })

keep_labels-KeepsStock :
    (alerts : List Alert) (k : ℕ) (t t' : Tables) {n : ℕ}
    → keep_labels alerts k t ≡ ok (t', n)
    → KeepsStock t t'
unfolding keep_labels
keep_labels-KeepsStock alerts k t t' e =
    let written : t' ≡ record t { alerts = alerts } = ground arith in
    rw written (record { items = same; batches = refl; movements = refl; rules = refl })

raise_alert-KeepsStock :
    (fr : Fresh) (rule : Rule) (i : Item) (t t' : Tables) {n : ℕ}
    → raise_alert fr rule i t ≡ ok (t', n)
    → KeepsStock t t'
unfolding raise_alert
raise_alert-KeepsStock fr rule i t t' e =
    let alert = create_if_not_active (new_alert fr rule i) t.alerts in
    elim (Bool-cases alert.1) [
      | inl created ↦ relabel-KeepsStock 1 rule.threshold i alert.0 1 t t' (rw created at e)
      | inr present ↦ keep_labels-KeepsStock alert.0 0 t t' (rw present at e)
    ]

clear_alert-KeepsStock :
    (fr : Fresh) (rule : Rule) (i : Item) (t t' : Tables) {n : ℕ}
    → clear_alert fr rule i t ≡ ok (t', n)
    → KeepsStock t t'
unfolding clear_alert
clear_alert-KeepsStock fr rule i t t' e =
    let resolved = resolve_for_item i.product_id i.store_id fr.now t.alerts in
    elim (Bool-cases (ltb 0 resolved.1 || i.is_low_stock == 1)) [
      | inl low ↦ relabel-KeepsStock 0 rule.threshold i resolved.0 0 t t' (rw low at e)
      | inr clear ↦ keep_labels-KeepsStock resolved.0 0 t t' (rw clear at e)
    ]

check_rule-KeepsStock :
    (fr : Fresh) (rule : Option Rule) (i : Item) (t t' : Tables) {n : ℕ}
    → check_rule fr rule i t ≡ ok (t', n)
    → KeepsStock t t'
check_rule-KeepsStock fr none i t t' e =
    let kept : t' ≡ t = ground arith in
    rw kept (record { items = same; batches = refl; movements = refl; rules = refl })
check_rule-KeepsStock fr (some rule) i t t' e = elim (Bool-cases (rule.enabled == 1)) [
  | inr off ↦
      let kept : t' ≡ t = ground arith in
      rw kept (record { items = same; batches = refl; movements = refl; rules = refl })
  | inl on ↦ elim (Bool-cases (leb_ℤ i.quantity rule.threshold)) [
    | inl low ↦ raise_alert-KeepsStock fr rule i t t' (rw (on, low) at e)
    | inr high ↦ clear_alert-KeepsStock fr rule i t t' (rw (on, high) at e)
  ]
]

-- What a movement's last steps do: the row is added, and the check keeps the stock.
pub record Recorded (m : Movement) (i : Item) (t t' : Tables) (r : MovementResult) : Type 0 where
  pub items : Relabelled t.items t'.items
  pub batches : t'.batches ≡ t.batches
  pub movements : t'.movements ≡ m ∷ t.movements
  pub movement : r.movement ≡ m
  pub inventory_item : r.inventory_item ≡ i
  pub new_quantity : r.new_quantity ≡ m.quantity_after

pub record_movement-Recorded :
    (fr : Fresh) (m : Movement) (i : Item) (t t' : Tables) {r : MovementResult}
    → record_movement fr m i t ≡ ok (t', r)
    → Recorded m i t t' r
unfolding record_movement check_and_create
record_movement-Recorded fr m i t t' {r} e =
    let before : Tables = record t { movements = m ∷ t.movements } in
    let ((after, n), checked, done) = >>=-eq-ok (check_and_create fr i before) _ e in
    let kept : KeepsStock before after =
      check_rule-KeepsStock fr (find_applicable_rule i.product_id i.store_id none t.rules) i before
        after checked in
    let final : after ≡ t' = ground arith in
    let kept' : KeepsStock before t' = subst (λ u. KeepsStock before u) final kept in
    record {
      items = kept'.items;
      batches = kept'.batches;
      movements = kept'.movements;
      movement = ground arith;
      inventory_item = ground arith;
      new_quantity = ground arith;
    }

pub Relabelled-Distinct :
    {items items' : List Item}
    → Relabelled items items'
    → Distinct item_key items
    → Distinct item_key items'
Relabelled-Distinct same u = u
Relabelled-Distinct {items} (labelled id flag threshold) u =
    Distinct-update_where item_key (has_id item_key id) (mark_low flag threshold) items (λ r. refl)
      u

quantity_of-patch :
    (p : Item → Bool) (flag : ℕ) (threshold : ℤ) (o : Option Item)
    → quantity_of (map_option (patch p (mark_low flag threshold)) o) ≡ quantity_of o
quantity_of-patch p flag threshold none = refl
quantity_of-patch p flag threshold (some i) = ground arith

pub Relabelled-quantity :
    (p s : ℕ) {items items' : List Item}
    → Relabelled items items'
    → quantity_of (find_by_product_and_store p s items')
      ≡ quantity_of (find_by_product_and_store p s items)
unfolding find_by_product_and_store item_at
Relabelled-quantity p s same = refl
Relabelled-quantity p s {items} (labelled id flag threshold) =
    rw
      (find-update_where (item_at p s) (has_id item_key id) (mark_low flag threshold) items
        (λ r. refl))
      (quantity_of-patch (has_id item_key id) flag threshold (find (item_at p s) items))

pub Relabelled-All :
    (P : Item → Type 0) {items items' : List Item}
    → ((flag : ℕ) (threshold : ℤ) (i : Item) → P i → P (mark_low flag threshold i))
    → Relabelled items items'
    → All P items
    → All P items'
Relabelled-All P h same u = u
Relabelled-All P {items} h (labelled id flag threshold) u =
    All-update_where P (has_id item_key id) (mark_low flag threshold) items (h flag threshold) u
