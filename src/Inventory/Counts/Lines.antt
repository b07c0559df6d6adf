-- ===== src/Inventory/Counts/Lines.antt =====
-- src/modules/inventory/services/stock-count.service.ts: `recordLine` keeps one line of a count for
-- each product.
use radha_backend.Prelude.{
  ℕ, ◌≡◌, refl, subst, Bool, false, Option, none, some, List, [], ◌∷◌, arith, inl, inr, Bool-cases,
  Option-cases, ==_refl, All, find, Result, ok, >>=-ok_then, ◌==◌, ◌&&◌, sym, ◌∙◌,
}
use radha_backend.Prelude.Int.{ℤ, ◌-ℤ◌}
use radha_backend.Prelude.Table.{update_where, has_id, update}
use radha_backend.Prelude.Table.Laws.{
  Distinct, find-none, find-holds, find-update_where, find-update_other, find→find_by_id, update-ok,
  All-update_where,
}
use radha_backend.Inventory.Stock.Adjusting.{quantity_at}
use radha_backend.Inventory.Counts.{
  Count, Line, CountTables, RecordLineInput, in_progress, line_key, is_line_for,
  find_by_count_and_product, find_by_id_in_tenant, upsert_for_product, same_count_status,
  is_tenant_count,
}
use radha_backend.Inventory.Counts.Workflow.{
  new_line, line_recounted, record_line, record_line_in_transaction, existing_count,
  unless_in_progress,
}

-- No two lines are of one count and one product.
abbrev pub OneLineEach : List Line → Type 0
OneLineEach [] = Unit
OneLineEach (l ∷ ls) =
    All (λ k. is_line_for l.stock_count_id l.product_id k ≡ false) ls × OneLineEach ls

-- The patch keeps the key, the count and the product.
pub record KeepsLine (f : Line → Line) : Type 0 where
  pub id : (l : Line) → (f l).id ≡ l.id
  pub count : (l : Line) → (f l).stock_count_id ≡ l.stock_count_id
  pub product : (l : Line) → (f l).product_id ≡ l.product_id

is_line_for-patch :
    (f : Line → Line) (count_id p : ℕ) (l : Line)
    → KeepsLine f
    → is_line_for count_id p (f l) ≡ is_line_for count_id p l
is_line_for-patch f count_id p l keeps = rw (keeps.count l, keeps.product l) refl

pub OneLineEach-update_where :
    (test : Line → Bool) (f : Line → Line) (lines : List Line)
    → KeepsLine f
    → OneLineEach lines
    → OneLineEach (update_where test f lines)
OneLineEach-update_where test f [] keeps u = tt
OneLineEach-update_where test f (l ∷ ls) keeps u =
    let others =
      All-update_where (λ k. is_line_for l.stock_count_id l.product_id k ≡ false) test f ls
        (λ k ne. is_line_for-patch f l.stock_count_id l.product_id k keeps ∙ ne) u.0 in
    let rest = OneLineEach-update_where test f ls keeps u.1 in
    elim (Bool-cases (test l)) [
      | inl e ↦ rw (e, keeps.count l, keeps.product l) (others, rest)
      | inr e ↦ rw e (others, rest)
    ]

-- What a recording at (count, product) leaves.
pub record LineRecorded (count_id p : ℕ) (system counted : ℤ) (lines lines' : List Line) (l : Line)
    : Type 0 where
  pub found : find_by_count_and_product count_id p lines' ≡ some l
  pub system_quantity : l.system_quantity ≡ system
  pub counted_quantity : l.counted_quantity ≡ counted
  pub variance : l.variance ≡ counted -ℤ system
  pub others :
      (count_id' p' : ℕ)
      → ((count_id' == count_id) && (p' == p)) ≡ false
      → find_by_count_and_product count_id' p' lines' ≡ find_by_count_and_product count_id' p' lines
  pub one_each : OneLineEach lines'

upsert-LineRecorded :
    (id now tenant : ℕ) (c : Count) (input : RecordLineInput) (system : ℤ)
    (lines lines' : List Line) {l : Line}
    → Distinct line_key lines
    → OneLineEach lines
    → upsert_for_product c.id input.product_id
        (new_line id now tenant c input system)
        (line_recounted input system)
        lines
      ≡ ok (lines', l)
    → LineRecorded c.id input.product_id system input.counted_quantity lines lines' l
unfolding upsert_for_product find_by_count_and_product
upsert-LineRecorded id now tenant c input system lines lines' {l} keys one e =
    let p = input.product_id in
    let fresh = new_line id now tenant c input system in
    let write = line_recounted input system in
    let keeps : KeepsLine write = record {
      id = λ k. refl;
      count = λ k. refl;
      product = λ k. refl;
    } in
    elim (Option-cases (find (is_line_for c.id p) lines)) [
      | inl missing ↦
          let done : ◌≡◌ {A = Result (List Line × Line)} (ok (fresh ∷ lines, fresh))
              (ok (lines', l)) =
            rw missing at e in
          let rows : lines' ≡ fresh ∷ lines = ground arith in
          let row : l ≡ fresh = ground arith in
          rw (rows, row)
            (record {
              found = rw (==_refl c.id, ==_refl p) refl;
              system_quantity = refl;
              counted_quantity = refl;
              variance = refl;
              others = λ count_id' p' away. ground (arith, away);
              one_each = (find-none (is_line_for c.id p) lines missing, one);
            })
      | inr (k, there) ↦
          let known =
            update-ok line_key k.id write lines (λ j. refl)
              (find→find_by_id line_key (is_line_for c.id p) lines keys there) in
          let step : update line_key k.id write lines ≡ ok (lines', l) = rw there at e in
          let done : ◌≡◌ {A = Result (List Line × Line)}
              (ok (update_where (has_id line_key k.id) write lines, write k)) (ok (lines', l)) =
            sym known ∙ step in
          let rows : lines' ≡ update_where (has_id line_key k.id) write lines = ground arith in
          let row : l ≡ write k = ground arith in
          let holds = find-holds (is_line_for c.id p) lines there in
          rw (rows, row)
            (record {
              found =
                  find-update_where (is_line_for c.id p) (has_id line_key k.id) write lines
                    (λ j. refl)
                  ∙ rw there (rw (==_refl k.id) refl);
              system_quantity = refl;
              counted_quantity = refl;
              variance = refl;
              others = λ count_id' p' away.
                  find-update_other line_key (is_line_for c.id p) (is_line_for count_id' p') write
                    lines (λ j. refl) keys there (ground (arith, holds, away));
              one_each = OneLineEach-update_where (has_id line_key k.id) write lines keeps one;
            })
    ]

pub existing_count-ok : (o : Option Count) {c : Count} → existing_count o ≡ ok c → o ≡ some c
existing_count-ok none e = cc
existing_count-ok (some d) e = ground arith

-- A count that is found carries the key and the tenant that it was looked up by.
pub own_count-found :
    (id tenant : ℕ) (counts : List Count) {c : Count}
    → find_by_id_in_tenant id tenant counts ≡ some c
    → (c.id ≡ id) × (c.tenant_id ≡ tenant) × (find_by_id_in_tenant c.id c.tenant_id counts ≡ some c)
unfolding find_by_id_in_tenant
own_count-found id tenant counts {c} found =
    let holds = find-holds (is_tenant_count id tenant) counts found in
    let this : c.id ≡ id = ground (arith, holds) in
    let ours : c.tenant_id ≡ tenant = ground (arith, holds) in
    (
      this,
      ours,
      subst (λ n. find (is_tenant_count n c.tenant_id) counts ≡ some c) (sym this)
          (subst (λ n. find (is_tenant_count id n) counts ≡ some c) (sym ours) found),
    )

-- Where the lines' keys are distinct and there is at most one line for each count and product, a
-- recording that succeeds found the tenant's count in
-- progress. The line that it returns is the one of the count and the product, with the quantity that
-- the item of the count's store holds, the quantity counted and the difference. It leaves the lines
-- of every other count and product, and there is still at most one line for each. It touches neither
-- the stock nor the counts.
pub record_line-LineRecorded :
    (id now tenant count_id : ℕ) (input : RecordLineInput) (t : CountTables) {t' : CountTables}
    {l : Line}
    → Distinct line_key t.lines
    → OneLineEach t.lines
    → record_line id now tenant count_id input t ≡ ok (t', l)
    → (c : Count) × (find_by_id_in_tenant count_id tenant t.counts ≡ some c)
      × (c.status ≡ in_progress)
      × LineRecorded count_id input.product_id
          (quantity_at input.product_id c.store_id t.stock)
          input.counted_quantity
          t.lines
          t'.lines
          l
      × (t'.stock ≡ t.stock)
      × (t'.counts ≡ t.counts)
unfolding record_line record_line_in_transaction find_by_id_in_tenant same_count_status
record_line-LineRecorded id now tenant count_id input t {t'} {l} keys one e =
    >>=-ok_then (existing_count (find_by_id_in_tenant count_id tenant t.counts)) _ e λ c there e1.
      >>=-ok_then (unless_in_progress c) _ e1 λ _ in_time e2.
        let system = quantity_at input.product_id c.store_id t.stock in
        >>=-ok_then
          (upsert_for_product c.id input.product_id (new_line id now tenant c input system)
            (line_recounted input system) t.lines)
          _ e2
          λ line put e3.
            let found = existing_count-ok _ there in
            let holds = find-holds (is_tenant_count count_id tenant) t.counts found in
            let this : c.id ≡ count_id = ground (arith, holds) in
            let written : t' ≡ record t { lines = line.0 } = ground arith in
            let row : l ≡ line.1 = ground arith in
            let recorded =
              upsert-LineRecorded id now tenant c input system t.lines line.0 keys one put in
            rw (written, row) (c, found, ground arith, rw (← this) recorded, refl, refl)
