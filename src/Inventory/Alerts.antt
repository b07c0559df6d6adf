-- ===== src/Inventory/Alerts.antt =====
-- src/modules/inventory/services/low-stock-alert.service.ts: the check that follows every change of
-- a quantity, and the rules. The fan-out of notifications after the commit is not modelled.
pub mod Opened
use radha_backend.Prelude.{
  ℕ, not, ◌||◌, Option, none, some, ◌==◌, if◌then◌else◌, Result, List, ok, ◌>>=◌, ltb,
}
use radha_backend.Prelude.Int.{ℤ, leb_ℤ}
use radha_backend.Prelude.Table.{update}
use radha_backend.Inventory.Types.{Item, Rule, Alert, Tables, Fresh}
use radha_backend.Inventory.Repositories.{
  find_applicable_rule, create_if_not_active, resolve_for_item,
}

-- The patch of `isLowStock` and `lowStockThreshold`.
abbrev pub mark_low : ℕ → ℤ → Item → Item
mark_low flag threshold i = record i { low_stock_threshold = some threshold; is_low_stock = flag }

abbrev pub new_alert : Fresh → Rule → Item → Alert
new_alert fr rule i = record {
  id = fr.alert_id;
  tenant_id = i.tenant_id;
  store_id = i.store_id;
  product_id = i.product_id;
  inventory_item_id = i.id;
  threshold = rule.threshold;
  current_quantity = i.quantity;
  notified_at = none;
  resolved_at = none;
}

-- The writes of a branch: the labels of the item, and the alerts; or the alerts alone.
unfoldable pub relabel : ℕ → ℤ → Item → List Alert → ℕ → Tables → Result (Tables × ℕ)
relabel flag threshold i alerts created t = do
  r ← update (λ (j : Item). j.id) i.id (mark_low flag threshold) t.items
  ok (record t { items = r.0; alerts = alerts }, created)

unfoldable pub keep_labels : List Alert → ℕ → Tables → Result (Tables × ℕ)
keep_labels alerts created t = ok (record t { alerts = alerts }, created)

-- The branch of a quantity at or below the threshold.
unfoldable pub raise_alert : Fresh → Rule → Item → Tables → Result (Tables × ℕ)
raise_alert fr rule i t =
    let (alerts, created) = create_if_not_active (new_alert fr rule i) t.alerts in
    if created then relabel 1 rule.threshold i alerts 1 t else keep_labels alerts 0 t

-- The branch of a quantity above the threshold.
unfoldable pub clear_alert : Fresh → Rule → Item → Tables → Result (Tables × ℕ)
clear_alert fr rule i t =
    let (alerts, resolved) = resolve_for_item i.product_id i.store_id fr.now t.alerts in
    if ltb 0 resolved || i.is_low_stock == 1
    then relabel 0 rule.threshold i alerts 0 t
    else keep_labels alerts 0 t

abbrev pub check_rule : Fresh → Option Rule → Item → Tables → Result (Tables × ℕ)
check_rule fr none i t = ok (t, 0)
check_rule fr (some rule) i t =
    if not (rule.enabled == 1)
    then ok (t, 0)
    else if leb_ℤ i.quantity rule.threshold
    then raise_alert fr rule i t
    else clear_alert fr rule i t

-- `checkAndCreate`: the tables, and the number of alerts created
unfoldable pub check_and_create : Fresh → Item → Tables → Result (Tables × ℕ)
check_and_create fr i t =
    check_rule fr (find_applicable_rule i.product_id i.store_id none t.rules) i t
