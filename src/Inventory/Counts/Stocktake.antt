-- ===== src/Inventory/Counts/Stocktake.antt =====
-- src/modules/inventory/services/stock-count.service.ts: what `complete` makes of the stock.
use radha_backend.Prelude.{
  ℕ, String, ◌+◌, ◌≡◌, ◌≢◌, refl, sym, ap, ◌∙◌, Bool, true, false, not, ◌&&◌, some, List, [], ◌∷◌,
  ◌⊎◌, arith, inl, inr, Bool-cases, ==_iff, All, any, select, length, ◌==◌, leb, Result, ok,
  >>=-ok_then, if◌then◌else◌,
}
use radha_backend.Prelude.Int.{ℤ, pos, ◌+ℤ◌, int_laws, eqb_ℤ, abs, parts_of_eq}
use radha_backend.Prelude.Table.{update_where, has_id, update}
use radha_backend.Prelude.Table.Laws.{
  Distinct, All-map, All-both, All-select, select-holds, update-inv,
}
use radha_backend.Inventory.Types.{Fresh}
use radha_backend.Inventory.Movement.Adjust.{adjust}
use radha_backend.Inventory.Stock.Labels.{item_key}
use radha_backend.Inventory.Stock.Adjusting.{
  adjust-AdjustRun, quantity_at, adjusted-Distinct, adjusted-here, adjusted-there,
  adjusted-elsewhere,
}
use radha_backend.Inventory.Counts.{
  Count, Line, CountTables, line_key, is_line_of, is_line_for, insert_line, sort_lines,
  find_by_count,
}
use radha_backend.Inventory.Counts.Workflow.{
  Tally, adjustment_of, tallied, settle_line, settle_lines,
}
use radha_backend.Inventory.Counts.Lines.{OneLineEach}

-- The line's difference is not nothing.
abbrev pub varies : Line → Bool
varies l = not (eqb_ℤ l.variance (pos 0))

-- The line adjusts the item at (p, s).
abbrev pub touches : Count → ℕ → ℕ → Line → Bool
touches c p s l = varies l && ((l.product_id == p) && (c.store_id == s))

abbrev pub total_variance : List Line → ℤ
total_variance [] = pos 0
total_variance (l ∷ ls) = abs l.variance +ℤ total_variance ls

abbrev pub product_of : Line → ℕ
product_of l = l.product_id

-- What a pass of the loop does to the lines' table.
pub data Marked (l : Line) (lines : List Line) : List Line → Type 0 where
  unmarked : Marked l lines lines
  marked :
      (m : ℕ)
      → Marked l lines (
          update_where
            (has_id line_key l.id)
            (λ (r : Line). record r { adjustment_movement_id = some m })
            lines)

-- What one pass of the loop leaves.
pub record LineSettled (c : Count) (l : Line) (t t' : CountTables) (k k' : Tally) : Type 0 where
  pub item_keys : Distinct item_key t'.stock.items
  pub batches : t'.stock.batches ≡ t.stock.batches
  pub counts : t'.counts ≡ t.counts
  pub lines : Marked l t.lines t'.lines
  pub here :
      (varies l ≡ false) ⊎ (quantity_at l.product_id c.store_id t'.stock ≡ l.counted_quantity)
  pub there :
      (p s : ℕ) → touches c p s l ≡ false → quantity_at p s t'.stock ≡ quantity_at p s t.stock
  pub movements : length t'.stock.movements ≡ (if varies l then 1 else 0) + length t.stock.movements
  pub variances : k'.variances ≡ (if varies l then 1 else 0) + k.variances
  pub adjustments : k'.adjustments_created ≡ (if varies l then 1 else 0) + k.adjustments_created
  pub total : k'.total_variance_quantity ≡ k.total_variance_quantity +ℤ abs l.variance

abs-zero : (a : ℤ) → eqb_ℤ a (pos 0) ≡ true → abs a ≡ pos 0
unfolding abs
abs-zero a h = ground arith

module _ (fr : ℕ → Fresh) (note : ℕ → ℤ → String) (tenant user : ℕ) (c : Count) where
  pub settle_line-LineSettled :
      (l : Line) (t t' : CountTables) (k k' : Tally)
      → Distinct item_key t.stock.items
      → settle_line fr note tenant user c l t k ≡ ok (t', k')
      → LineSettled c l t t' k k'
  unfolding settle_line
  settle_line-LineSettled l t t' k k' keys e = elim (Bool-cases (eqb_ℤ l.variance (pos 0))) [
    | inl nil ↦
        let done : ◌≡◌ {A = Result (CountTables × Tally)} (ok (t, k)) (ok (t', k')) = rw nil at e in
        let tables : t' ≡ t = ground arith in
        let tally : k' ≡ k = ground arith in
        rw (tables, tally)
          (record {
            item_keys = keys;
            batches = refl;
            counts = refl;
            lines = unmarked;
            here = inl (rw nil refl);
            there = λ p s away. refl;
            movements = rw nil (omega arith);
            variances = rw nil (omega arith);
            adjustments = rw nil (omega arith);
            total = rw (abs-zero l.variance nil) (omega int_laws);
          })
    | inr off ↦
        >>=-ok_then (adjust (fr l.id) tenant user (adjustment_of note c l) t.stock) _ (rw off at e)
          λ adjusted adjusting e1.
            >>=-ok_then
              (update line_key l.id
                (λ (r : Line). record r { adjustment_movement_id = some adjusted.1.movement.id })
                t.lines)
              _ e1
              λ line marking e2.
                let run =
                  adjust-AdjustRun (fr l.id) tenant user (adjustment_of note c l) t.stock keys
                    adjusting in
                let mark =
                  update-inv line_key l.id
                    (λ (r : Line). record r {
                      adjustment_movement_id = some adjusted.1.movement.id;
                    })
                    t.lines (λ r. refl) marking in
                let tables : t' ≡ record t { lines = line.0; stock = adjusted.0 } = ground arith in
                let tally : k' ≡ tallied l k = ground arith in
                rw (tables, tally)
                  (record {
                    item_keys =
                        adjusted-Distinct (fr l.id) tenant user _ t.stock adjusted.0 keys run;
                    batches = run.recorded.batches;
                    counts = refl;
                    lines = rw mark.0 (marked adjusted.1.movement.id);
                    here = inr (adjusted-here (fr l.id) tenant user _ t.stock adjusted.0 keys run);
                    there = λ p s away.
                        adjusted-there (fr l.id) tenant user _ t.stock adjusted.0 keys run p s (
                          adjusted-elsewhere (fr l.id) tenant user _ t.stock adjusted.0 keys run p s
                            (ground (arith, away, off)));
                    movements = rw off (ap length run.recorded.movements ∙ omega arith);
                    variances = rw off (omega arith);
                    adjustments = rw off (omega arith);
                    total = refl;
                  })
  ]

-- What the loop over `ls` leaves: the quantity counted at every product whose line varies, and every
-- other quantity as it was.
pub record AllSettled (c : Count) (ls : List Line) (t t' : CountTables) (k k' : Tally)
    : Type 0 where
  pub item_keys : Distinct item_key t'.stock.items
  pub batches : t'.stock.batches ≡ t.stock.batches
  pub counts : t'.counts ≡ t.counts
  pub counted :
      All
        (λ l.
          (varies l ≡ false) ⊎ (quantity_at l.product_id c.store_id t'.stock ≡ l.counted_quantity))
        ls
  pub others :
      (p s : ℕ)
      → any (touches c p s) ls ≡ false
      → quantity_at p s t'.stock ≡ quantity_at p s t.stock
  pub movements : length t'.stock.movements ≡ length (select varies ls) + length t.stock.movements
  pub variances : k'.variances ≡ length (select varies ls) + k.variances
  pub adjustments : k'.adjustments_created ≡ length (select varies ls) + k.adjustments_created
  pub total : k'.total_variance_quantity ≡ k.total_variance_quantity +ℤ total_variance ls

any-touches :
    (c : Count) (p : ℕ) (ls : List Line)
    → All (λ k. product_of k ≢ p) ls
    → any (touches c p c.store_id) ls ≡ false
any-touches c p [] u = refl
any-touches c p (l ∷ ls) u = ground (arith, u.0, ==_iff l.product_id p, any-touches c p ls u.1)

length-select_cons :
    (l : Line) (ls : List Line)
    → length (select varies (l ∷ ls)) ≡ (if varies l then 1 else 0) + length (select varies ls)
length-select_cons l ls = ground arith

module _ (fr : ℕ → Fresh) (note : ℕ → ℤ → String) (tenant user : ℕ) (c : Count) where
  pub settle_lines-AllSettled :
      (ls : List Line) (t t' : CountTables) (k k' : Tally)
      → Distinct item_key t.stock.items
      → Distinct product_of ls
      → settle_lines fr note tenant user c ls t k ≡ ok (t', k')
      → AllSettled c ls t t' k k'
  unfolding settle_lines abs
  settle_lines-AllSettled [] t t' k k' keys u e =
      let tables : t' ≡ t = ground arith in
      let tally : k' ≡ k = ground arith in
      rw (tables, tally)
        (record {
          item_keys = keys;
          batches = refl;
          counts = refl;
          counted = tt;
          others = λ p s away. refl;
          movements = omega arith;
          variances = omega arith;
          adjustments = omega arith;
          total = omega int_laws;
        })
  settle_lines-AllSettled (l ∷ ls) t t' k k' keys u e =
      >>=-ok_then (settle_line fr note tenant user c l t k) _ e λ (t1, k1) first rest.
        let one = settle_line-LineSettled fr note tenant user c l t t1 k k1 keys first in
        let more = settle_lines-AllSettled ls t1 t' k1 k' one.item_keys u.1 rest in
        let later = more.others l.product_id c.store_id (any-touches c l.product_id ls u.0) in
        let number = length-select_cons l ls in
        record {
          item_keys = more.item_keys;
          batches = more.batches ∙ one.batches;
          counts = more.counts ∙ one.counts;
          counted =
              (elim one.here [ inl nil ↦ inl nil | inr done ↦ inr (later ∙ done) ], more.counted);
          others = λ p s away.
              more.others p s (ground (arith, away)) ∙ one.there p s (ground (arith, away));
          movements = omega (arith, number, more.movements, one.movements);
          variances = omega (arith, number, more.variances, one.variances);
          adjustments = omega (arith, number, more.adjustments, one.adjustments);
          total = omega (int_laws, parts_of_eq more.total, parts_of_eq one.total);
        }

-- Sorting keeps what holds of all lines, and distinct products.
All-insert_line :
    (P : Line → Type 0) (l : Line) (ls : List Line) → P l → All P ls → All P (insert_line l ls)
unfolding insert_line
All-insert_line P l [] h u = (h, tt)
All-insert_line P l (k ∷ ks) h u = elim (Bool-cases (leb l.created_at k.created_at)) [
  | inl e ↦ rw e (h, u)
  | inr e ↦ rw e (u.0, All-insert_line P l ks h u.1)
]

pub All-sort_lines : (P : Line → Type 0) (ls : List Line) → All P ls → All P (sort_lines ls)
unfolding sort_lines
All-sort_lines P [] u = tt
All-sort_lines P (l ∷ ls) u = All-insert_line P l (sort_lines ls) u.0 (All-sort_lines P ls u.1)

Distinct-insert_line :
    (l : Line) (ls : List Line)
    → All (λ k. product_of k ≢ product_of l) ls
    → Distinct product_of ls
    → Distinct product_of (insert_line l ls)
unfolding insert_line
Distinct-insert_line l [] new u = (tt, tt)
Distinct-insert_line l (k ∷ ks) new u = elim (Bool-cases (leb l.created_at k.created_at)) [
  | inl e ↦ rw e (new, u)
  | inr e ↦ rw e (
    All-insert_line (λ j. product_of j ≢ product_of k) l ks (λ same. new.0 (sym same)) u.0,
    Distinct-insert_line l ks new.1 u.1,
  )
]

Distinct-sort_lines :
    (ls : List Line) → Distinct product_of ls → Distinct product_of (sort_lines ls)
unfolding sort_lines
Distinct-sort_lines [] u = tt
Distinct-sort_lines (l ∷ ls) u =
    Distinct-insert_line l (sort_lines ls)
      (All-sort_lines (λ k. product_of k ≢ product_of l) ls u.0) (Distinct-sort_lines ls u.1)

OneLineEach-products :
    (count_id : ℕ) (lines : List Line)
    → OneLineEach lines
    → Distinct product_of (select (is_line_of count_id) lines)
OneLineEach-products count_id [] u = tt
OneLineEach-products count_id (l ∷ ls) u = elim (Bool-cases (is_line_of count_id l)) [
  | inr away ↦ rw away (OneLineEach-products count_id ls u.1)
  | inl here ↦ rw here (
    All-map
        (λ k.
          (is_line_for l.stock_count_id l.product_id k ≡ false) × (is_line_of count_id k ≡ true))
        (λ k. product_of k ≢ product_of l) (select (is_line_of count_id) ls)
        (λ k h. λ same. ground (arith, here, h.0, h.1, same))
        (All-both (λ k. is_line_for l.stock_count_id l.product_id k ≡ false)
          (λ k. is_line_of count_id k ≡ true) (select (is_line_of count_id) ls)
          (All-select (λ k. is_line_for l.stock_count_id l.product_id k ≡ false)
            (is_line_of count_id) ls u.0)
          (select-holds (is_line_of count_id) ls)),
    OneLineEach-products count_id ls u.1,
  )
]

-- A count's lines are of distinct products.
pub find_by_count-products :
    (count_id : ℕ) (lines : List Line)
    → OneLineEach lines
    → Distinct product_of (find_by_count count_id lines)
unfolding find_by_count
find_by_count-products count_id lines u =
    Distinct-sort_lines (select (is_line_of count_id) lines) (OneLineEach-products count_id lines u)
