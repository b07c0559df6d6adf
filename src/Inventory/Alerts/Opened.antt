-- ===== src/Inventory/Alerts/Opened.antt =====
-- src/modules/inventory/services/low-stock-alert.service.ts: an alert is open exactly while the
-- stock is low.
use radha_backend.Prelude.{
  ℕ, ◌==◌, ==_iff, ==_refl, ◌≡◌, refl, sym, subst, ap, ◌∙◌, ◌↔◌, Bool, true, false, ◌&&◌, ◌||◌, not,
  is_some, none, some, List, [], ◌∷◌, arith, Bool-cases, Option-cases, inl, inr, ltb, ok,
  >>=-ok_then, if◌then◌else◌,
}
use radha_backend.Prelude.Int.{ℤ, ◌≤ℤ◌, leb_ℤ, leb_ℤ→le, leb_ℤ-gt}
use radha_backend.Prelude.Table.{update}
use radha_backend.Inventory.Types.{Item, Alert, Rule, Tables, Fresh}
use radha_backend.Inventory.Repositories.{
  active_at, find_active_for_item, create_if_not_active, resolve_for_item, find_applicable_rule,
}
use radha_backend.Inventory.Alerts.{
  new_alert, mark_low, relabel, keep_labels, raise_alert, clear_alert, check_rule, check_and_create,
}

-- An alert is open for the product and the store.
abbrev pub is_open : ℕ → ℕ → List Alert → Bool
is_open p s alerts = is_some (find_active_for_item p s alerts)

relabel-alerts :
    (flag : ℕ) (threshold : ℤ) (i : Item) (alerts : List Alert) (created : ℕ) (t : Tables)
    {t' : Tables} {n : ℕ}
    → relabel flag threshold i alerts created t ≡ ok (t', n)
    → (t'.alerts ≡ alerts) × (n ≡ created)
unfolding relabel
relabel-alerts flag threshold i alerts created t e =
    >>=-ok_then (update (λ (j : Item). j.id) i.id (mark_low flag threshold) t.items) _ e
      λ r done rest. (ground (arith, rest), ground (arith, rest))

keep_labels-alerts :
    (alerts : List Alert) (created : ℕ) (t : Tables) {t' : Tables} {n : ℕ}
    → keep_labels alerts created t ≡ ok (t', n)
    → (t'.alerts ≡ alerts) × (n ≡ created)
unfolding keep_labels
keep_labels-alerts alerts created t e = (ground (arith, e), ground (arith, e))

-- No alert is open after the open ones are resolved.
resolve_for_item-is_open :
    (p s now : ℕ) (alerts : List Alert) → is_open p s (resolve_for_item p s now alerts).0 ≡ false
unfolding resolve_for_item find_active_for_item active_at
resolve_for_item-is_open p s now [] = refl
resolve_for_item-is_open p s now (a ∷ rest) = ground (arith, resolve_for_item-is_open p s now rest)

new_alert-is_open :
    (fr : Fresh) (rule : Rule) (i : Item) (alerts : List Alert)
    → is_open i.product_id i.store_id (new_alert fr rule i ∷ alerts) ≡ true
unfolding find_active_for_item active_at
new_alert-is_open fr rule i alerts = rw (==_refl i.product_id, ==_refl i.store_id) refl

create_if_not_active-opens :
    (a : Alert) (alerts : List Alert)
    → is_open a.product_id a.store_id (a ∷ alerts) ≡ true
    → (is_open a.product_id a.store_id (create_if_not_active a alerts).0 ≡ true)
      × ((create_if_not_active a alerts).1 ≡ not (is_open a.product_id a.store_id alerts))
unfolding create_if_not_active
create_if_not_active-opens a alerts opens =
    elim (Option-cases (find_active_for_item a.product_id a.store_id alerts)) [
      | inl closed ↦ rw closed (opens, refl)
      | inr (b, there) ↦ rw there (ap is_some there, refl)
    ]

raise_alert-Opened :
    (fr : Fresh) (rule : Rule) (i : Item) (t : Tables) {t' : Tables} {n : ℕ}
    → raise_alert fr rule i t ≡ ok (t', n)
    → (is_open i.product_id i.store_id t'.alerts ≡ true)
      × (n ≡ (if not (is_open i.product_id i.store_id t.alerts) then 1 else 0))
unfolding raise_alert
raise_alert-Opened fr rule i t {t'} {n} e =
    let made = create_if_not_active (new_alert fr rule i) t.alerts in
    let (opened, new) =
      create_if_not_active-opens (new_alert fr rule i) t.alerts
        (new_alert-is_open fr rule i t.alerts) in
    elim (Bool-cases made.1) [
      | inl created ↦
          let (alerts, count) = relabel-alerts 1 rule.threshold i made.0 1 t (rw created at e) in
          (
            ap (is_open i.product_id i.store_id) alerts ∙ opened,
            count ∙ rw (sym new ∙ created) refl,
          )
      | inr present ↦
          let (alerts, count) = keep_labels-alerts made.0 0 t (rw present at e) in
          (
            ap (is_open i.product_id i.store_id) alerts ∙ opened,
            count ∙ rw (sym new ∙ present) refl,
          )
    ]

clear_alert-Opened :
    (fr : Fresh) (rule : Rule) (i : Item) (t : Tables) {t' : Tables} {n : ℕ}
    → clear_alert fr rule i t ≡ ok (t', n)
    → (is_open i.product_id i.store_id t'.alerts ≡ false) × (n ≡ 0)
unfolding clear_alert
clear_alert-Opened fr rule i t {t'} {n} e =
    let left = resolve_for_item i.product_id i.store_id fr.now t.alerts in
    let closed = resolve_for_item-is_open i.product_id i.store_id fr.now t.alerts in
    elim (Bool-cases (ltb 0 left.1 || i.is_low_stock == 1)) [
      | inl marked ↦
          let (alerts, created) = relabel-alerts 0 rule.threshold i left.0 0 t (rw marked at e) in
          (ap (is_open i.product_id i.store_id) alerts ∙ closed, created)
      | inr unmarked ↦
          let (alerts, created) = keep_labels-alerts left.0 0 t (rw unmarked at e) in
          (ap (is_open i.product_id i.store_id) alerts ∙ closed, created)
    ]

low_count :
    (open_before : Bool) {low : Bool}
    → low ≡ true
    → ◌≡◌ {A = ℕ} (if not open_before then 1 else 0) (if low && not open_before then 1 else 0)
low_count open_before h = rw h refl

high_count :
    (open_before : Bool) {low : Bool} {n : ℕ}
    → n ≡ 0
    → low ≡ false
    → n ≡ (if low && not open_before then 1 else 0)
high_count open_before e h = rw h e

-- Where an enabled rule applies to the item, a check that succeeds leaves an alert open for the
-- item's product and store exactly when its quantity is at or below the threshold, and it counts
-- one alert created exactly when the quantity is that low and none was open before.
pub check_and_create-Opened :
    (fr : Fresh) (i : Item) (t : Tables) (rule : Rule) {t' : Tables} {n : ℕ}
    → find_applicable_rule i.product_id i.store_id none t.rules ≡ some rule
    → rule.enabled ≡ 1
    → check_and_create fr i t ≡ ok (t', n)
    → ((is_open i.product_id i.store_id t'.alerts ≡ true) ↔ (i.quantity ≤ℤ rule.threshold))
      × (n ≡ (
          if leb_ℤ i.quantity rule.threshold && not (is_open i.product_id i.store_id t.alerts)
          then 1
          else 0))
unfolding check_and_create
check_and_create-Opened fr i t rule {t'} {n} applies enabled e =
    let run : check_rule fr (some rule) i t ≡ ok (t', n) =
      subst (λ r. check_rule fr r i t ≡ ok (t', n)) applies e in
    let tested = (==_iff rule.enabled 1).1 enabled in
    elim (Bool-cases (leb_ℤ i.quantity rule.threshold)) [
      | inl low ↦
          let (opened, created) = raise_alert-Opened fr rule i t (rw (tested, low) at run) in
          (
            ((λ h. leb_ℤ→le i.quantity rule.threshold low), (λ h. opened)),
            created ∙ low_count (is_open i.product_id i.store_id t.alerts) low,
          )
      | inr high ↦
          let (closed, created) = clear_alert-Opened fr rule i t (rw (tested, high) at run) in
          (
            (
              (λ h. absurd (ground (arith, h, closed))),
              (λ h. absurd (ground (arith, h, leb_ℤ-gt i.quantity rule.threshold high))),
            ),
            high_count (is_open i.product_id i.store_id t.alerts) created high,
          )
    ]
