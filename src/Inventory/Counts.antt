-- ===== src/Inventory/Counts.antt =====
-- src/modules/inventory/repositories/stock-counts.repository.ts and
-- repositories/stock-count-lines.repository.ts: the rows and the queries of the stock counts, and the
-- inputs of types/inventory.types.ts.
pub mod Workflow
pub mod Lines
pub mod Stocktake
pub mod Completion
pub mod Closed
pub mod Stuck
mod Tests
use radha_backend.Prelude.{
  ℕ, String, suc, Bool, true, false, ◌&&◌, ◌||◌, Option, none, some, List, [], ◌∷◌, ◌==◌, leb,
  if◌then◌else◌, find, select, any, length, or_else, not, Result, ok, err, ◌>>=◌, ◌>>◌, throw_if,
  not_found, business, business_rule_violation, concurrent_modification,
}
use radha_backend.Prelude.Int.{ℤ, pos, ◌+ℤ◌, ◌-ℤ◌, eqb_ℤ, abs}
use radha_backend.Prelude.Table.{update, update_where, create}
use radha_backend.Prelude.Table.Laws.{map_option}
use radha_backend.Inventory.Types.{Tables, Fresh, AdjustStockInput, count_adjustment}
use radha_backend.Inventory.Repositories.{find_by_product_and_store}
use radha_backend.Inventory.Movement.{quantity_of}
use radha_backend.Inventory.Movement.Adjust.{adjust}

-- `StockCountStatus`
pub data CountStatus : Type 0 where
  in_progress completed cancelled : CountStatus

-- `stock_counts`, without the metadata
pub record Count : Type 0 where
  pub id : ℕ
  pub tenant_id : ℕ
  pub store_id : ℕ
  pub status : CountStatus
  pub started_at : ℕ
  pub completed_at : Option ℕ
  pub cancelled_at : Option ℕ
  pub notes : Option String
  pub total_products : ℕ
  pub variances : ℕ
  pub total_variance_quantity : ℤ
  pub adjustments_created : ℕ
  pub created_by : ℕ
  pub updated_by : ℕ

-- `stock_count_lines`, without the metadata
pub record Line : Type 0 where
  pub id : ℕ
  pub stock_count_id : ℕ
  pub tenant_id : ℕ
  pub store_id : ℕ
  pub product_id : ℕ
  pub system_quantity : ℤ
  pub counted_quantity : ℤ
  pub variance : ℤ
  pub notes : Option String
  pub adjustment_movement_id : Option ℕ
  pub created_at : ℕ

pub record CountTables : Type 0 where
  pub counts : List Count
  pub lines : List Line
  pub stock : Tables

-- `StartStockCountInput`
pub record StartStockCountInput : Type 0 where
  pub store_id : ℕ
  pub notes : Option String
  pub started_at : Option ℕ

-- `RecordStockCountLineInput`
pub record RecordLineInput : Type 0 where
  pub product_id : ℕ
  pub counted_quantity : ℤ
  pub notes : Option String

-- `StockCountResult`
pub record CountResult : Type 0 where
  pub count_id : ℕ
  pub total_products : ℕ
  pub variances : ℕ
  pub total_variance_quantity : ℤ
  pub adjustments_created : ℕ

abbrev pub count_key : Count → ℕ
count_key c = c.id

abbrev pub line_key : Line → ℕ
line_key l = l.id

unfoldable pub same_count_status : CountStatus → CountStatus → Bool
same_count_status in_progress in_progress = true
same_count_status completed completed = true
same_count_status cancelled cancelled = true
same_count_status s t = false

-- `findByIdInTenant`
abbrev pub is_tenant_count : ℕ → ℕ → Count → Bool
is_tenant_count id tenant c = c.id == id && c.tenant_id == tenant

unfoldable pub find_by_id_in_tenant : ℕ → ℕ → List Count → Option Count
find_by_id_in_tenant id tenant = find (is_tenant_count id tenant)

-- `updateStatusGuarded`: the table, and the row where there was one to change
abbrev pub is_guarded : ℕ → List CountStatus → Count → Bool
is_guarded id allowed c = c.id == id && any (same_count_status c.status) allowed

unfoldable pub update_status_guarded :
    ℕ → List CountStatus → (Count → Count) → List Count → List Count × Option Count
update_status_guarded id allowed patch counts = (
  update_where (is_guarded id allowed) patch counts,
  map_option patch (find (is_guarded id allowed) counts),
)

-- `findByCount`: the lines of a count by the time of their creation
unfoldable pub insert_line : Line → List Line → List Line
insert_line l [] = l ∷ []
insert_line l (k ∷ ks) =
    let rest = insert_line l ks in if leb l.created_at k.created_at then l ∷ k ∷ ks else k ∷ rest

unfoldable pub sort_lines : List Line → List Line
sort_lines [] = []
sort_lines (l ∷ ls) = insert_line l (sort_lines ls)

abbrev pub is_line_of : ℕ → Line → Bool
is_line_of count_id l = l.stock_count_id == count_id

unfoldable pub find_by_count : ℕ → List Line → List Line
find_by_count count_id lines = sort_lines (select (is_line_of count_id) lines)

-- `findByCountAndProduct`
abbrev pub is_line_for : ℕ → ℕ → Line → Bool
is_line_for count_id p l = l.stock_count_id == count_id && l.product_id == p

unfoldable pub find_by_count_and_product : ℕ → ℕ → List Line → Option Line
find_by_count_and_product count_id p = find (is_line_for count_id p)

-- `upsertForProduct`
abbrev pub upsert_found : Option Line → Line → (Line → Line) → List Line → Result (List Line × Line)
upsert_found none insert patch lines = ok (create insert lines, insert)
upsert_found (some existing) insert patch lines = update line_key existing.id patch lines

unfoldable pub upsert_for_product :
    ℕ → ℕ → Line → (Line → Line) → List Line → Result (List Line × Line)
upsert_for_product count_id p insert patch lines =
    upsert_found (find_by_count_and_product count_id p lines) insert patch lines
