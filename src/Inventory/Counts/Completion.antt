-- ===== src/Inventory/Counts/Completion.antt =====
-- src/modules/inventory/services/stock-count.service.ts: `complete` as a whole.
use radha_backend.Prelude.{
  ℕ, String, ◌+◌, ◌≡◌, refl, subst, ◌∙◌, false, some, List, [], ◌∷◌, ◌⊎◌, arith, ==_refl, All, any,
  find, select, length, ok, >>=-ok_then, throw_if, throw_if-ok, business, business_rule_violation,
}
use radha_backend.Prelude.Int.{ℤ, int_laws, parts_of_eq}
use radha_backend.Prelude.Table.{update_where}
use radha_backend.Prelude.Table.Laws.{Distinct, find-update_where, map_option}
use radha_backend.Inventory.Types.{Fresh}
use radha_backend.Inventory.Stock.Labels.{item_key}
use radha_backend.Inventory.Stock.Adjusting.{quantity_at}
use radha_backend.Inventory.Counts.{
  CountStatus, in_progress, completed, cancelled, Count, Line, CountTables, CountResult,
  find_by_count, find_by_id_in_tenant, is_tenant_count, is_guarded, update_status_guarded,
  same_count_status,
}
use radha_backend.Inventory.Counts.Workflow.{
  settle_lines, complete_in_transaction, complete_count, existing_count, changed_count,
  count_completed, no_variances,
}
use radha_backend.Inventory.Counts.Lines.{OneLineEach, existing_count-ok, own_count-found}
use radha_backend.Inventory.Counts.Stocktake.{
  varies, touches, total_variance, settle_lines-AllSettled, find_by_count-products,
}

-- What a completion leaves, and returns, of the count `c` with the lines `ls`.
pub record Completed (c : Count) (ls : List Line) (t t' : CountTables) (r : CountResult)
    : Type 0 where
  pub counted :
      All
        (λ l.
          (varies l ≡ false) ⊎ (quantity_at l.product_id c.store_id t'.stock ≡ l.counted_quantity))
        ls
  pub others :
      (p s : ℕ)
      → any (touches c p s) ls ≡ false
      → quantity_at p s t'.stock ≡ quantity_at p s t.stock
  pub batches : t'.stock.batches ≡ t.stock.batches
  pub movements : length t'.stock.movements ≡ r.adjustments_created + length t.stock.movements
  pub total_products : r.total_products ≡ length ls
  pub variances : r.variances ≡ length (select varies ls)
  pub adjustments : r.adjustments_created ≡ r.variances
  pub total : r.total_variance_quantity ≡ total_variance ls
  pub closed : Count
  pub found : find_by_id_in_tenant c.id c.tenant_id t'.counts ≡ some closed
  pub status : closed.status ≡ completed

remaining_status :
    (s : CountStatus)
    → same_count_status s completed ≡ false
    → same_count_status s cancelled ≡ false
    → s ≡ in_progress
unfolding same_count_status
remaining_status in_progress h k = refl
remaining_status completed h k = cc
remaining_status cancelled h k = cc

module _ (fr : ℕ → Fresh) (note : ℕ → ℤ → String) (tenant user : ℕ) where
  complete_in_transaction-Completed :
      (now : ℕ) (c : Count) (t : CountTables) {t' : CountTables} {r : CountResult}
      → Distinct item_key t.stock.items
      → OneLineEach t.lines
      → find_by_id_in_tenant c.id c.tenant_id t.counts ≡ some c
      → c.status ≡ in_progress
      → complete_in_transaction fr note tenant user now c t ≡ ok (t', r)
      → Completed c (find_by_count c.id t.lines) t t' r
  unfolding complete_in_transaction update_status_guarded find_by_id_in_tenant same_count_status
  complete_in_transaction-Completed now c t {t'} {r} keys one found live e =
      let ls = find_by_count c.id t.lines in
      >>=-ok_then (settle_lines fr note tenant user c ls t no_variances) _ e λ (t1, k) settled e1.
        let all =
          settle_lines-AllSettled fr note tenant user c ls t t1 no_variances k keys
            (find_by_count-products c.id t.lines one) settled in
        let guard = is_guarded c.id (in_progress ∷ []) in
        let write = count_completed now user (length ls) k in
        >>=-ok_then (changed_count (map_option write (find guard t1.counts))) _ e1 λ d updated e2.
          let tables : t' ≡ record t1 { counts = update_where guard write t1.counts } =
            ground arith in
          let result : r ≡ record {
            count_id = c.id;
            total_products = length ls;
            variances = k.variances;
            total_variance_quantity = k.total_variance_quantity;
            adjustments_created = k.adjustments_created;
          } =
            ground arith in
          rw (tables, result)
            (record {
              counted = all.counted;
              others = all.others;
              batches = all.batches;
              movements = omega (arith, all.movements, all.adjustments);
              total_products = refl;
              variances = omega (arith, all.variances);
              adjustments = omega (arith, all.variances, all.adjustments);
              total = omega (int_laws, parts_of_eq all.total);
              closed = write c;
              found =
                  find-update_where (is_tenant_count c.id c.tenant_id) guard write t1.counts
                    (λ j. refl)
                  ∙ rw (all.counts, found) (rw (==_refl c.id, live) refl);
              status = refl;
            })

  -- On items with distinct keys, and with at most one line for each count and product, a completion
  -- that succeeds found the tenant's count in progress. Then, for every line of the count that
  -- varies, the item holds the quantity counted, whatever it held; every other item keeps its
  -- quantity, and the batches do not change. One movement is added for each such line, the result
  -- counts the lines, these lines and the sum of their differences, and the count is completed.
  pub complete_count-Completed :
      (now count_id : ℕ) (t : CountTables) {t' : CountTables} {r : CountResult}
      → Distinct item_key t.stock.items
      → OneLineEach t.lines
      → complete_count fr note tenant user now count_id t ≡ ok (t', r)
      → (c : Count) × (find_by_id_in_tenant count_id tenant t.counts ≡ some c)
        × (c.status ≡ in_progress)
        × Completed c (find_by_count count_id t.lines) t t' r
  unfolding complete_count complete_in_transaction same_count_status
  complete_count-Completed now count_id t {t'} {r} keys one e =
      >>=-ok_then (existing_count (find_by_id_in_tenant count_id tenant t.counts)) _ e λ c there e1.
        >>=-ok_then
          (throw_if (same_count_status c.status completed) (business business_rule_violation)) _ e1
          λ _ not_completed e2.
            >>=-ok_then
              (throw_if (same_count_status c.status cancelled) (business business_rule_violation)) _
              e2
              λ _ not_cancelled e3.
                let found =
                  existing_count-ok (find_by_id_in_tenant count_id tenant t.counts) there in
                let own = own_count-found count_id tenant t.counts found in
                let live =
                  remaining_status c.status (throw_if-ok _ _ not_completed)
                    (throw_if-ok _ _ not_cancelled) in
                (
                  c,
                  found,
                  live,
                  subst (λ n. Completed c (find_by_count n t.lines) t t' r) own.0
                      (complete_in_transaction-Completed now c t keys one own.2 live e3),
                )
