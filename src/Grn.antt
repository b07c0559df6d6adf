-- ===== src/Grn.antt =====
-- src/modules/grn: the goods receipts, their lines and their events. Amounts, suppliers, invoices and
-- metadata are left out: no modelled operation reads them.
pub mod Reversal
mod Tests
use radha_backend.Prelude.{
  ℕ, String, Bool, true, false, ◌&&◌, not, Option, List, [], ◌∷◌, ◌==◌, leb, if◌then◌else◌, find,
  any, select, is_some,
}
use radha_backend.Prelude.Int.{ℤ}
use radha_backend.Prelude.Table.{update_where}
use radha_backend.Prelude.Table.Laws.{map_option}

-- `GrnStatus`
pub data GrnStatus : Type 0 where
  draft pending_review posted cancelled reversed : GrnStatus

-- `GrnEventType`
pub data GrnEventType : Type 0 where
  created_event updated_event item_added item_updated item_removed : GrnEventType
  submitted_for_review approved posted_event cancelled_event reversed_event : GrnEventType

-- `grn_headers`
pub record Header : Type 0 where
  pub id : ℕ
  pub tenant_id : ℕ
  pub store_id : ℕ
  pub status : GrnStatus
  pub reversed_at : Option ℕ
  pub reversed_by : Option ℕ
  pub reversal_reason : Option String
  pub deleted_at : Option ℕ

-- `grn_items`
pub record GrnItem : Type 0 where
  pub id : ℕ
  pub grn_id : ℕ
  pub tenant_id : ℕ
  pub store_id : ℕ
  pub product_id : Option ℕ
  pub quantity : ℤ
  pub batch_number : Option String
  pub expiry_date : Option ℕ
  pub expiry_record_id : Option ℕ
  pub created_at : ℕ

-- `grn_events`
pub record GrnEvent : Type 0 where
  pub grn_id : ℕ
  pub tenant_id : ℕ
  pub type : GrnEventType
  pub actor_id : ℕ
  pub notes : Option String

pub record GrnTables : Type 0 where
  pub headers : List Header
  pub items : List GrnItem
  pub events : List GrnEvent

abbrev pub header_key : Header → ℕ
header_key h = h.id

unfoldable pub same_grn_status : GrnStatus → GrnStatus → Bool
same_grn_status draft draft = true
same_grn_status pending_review pending_review = true
same_grn_status posted posted = true
same_grn_status cancelled cancelled = true
same_grn_status reversed reversed = true
same_grn_status s t = false

-- `findByIdInTenant` of grn-headers.repository.ts
abbrev pub is_tenant_header : ℕ → ℕ → Header → Bool
is_tenant_header id tenant h = h.id == id && (h.tenant_id == tenant && not (is_some h.deleted_at))

unfoldable pub find_header : ℕ → ℕ → List Header → Option Header
find_header id tenant = find (is_tenant_header id tenant)

-- `updateStatusGuarded` of grn-headers.repository.ts
abbrev pub header_guard : ℕ → List GrnStatus → Header → Bool
header_guard id allowed h =
    h.id == id && (any (same_grn_status h.status) allowed && not (is_some h.deleted_at))

unfoldable pub update_header_guarded :
    ℕ → List GrnStatus → (Header → Header) → List Header → List Header × Option Header
update_header_guarded id allowed patch headers = (
  update_where (header_guard id allowed) patch headers,
  map_option patch (find (header_guard id allowed) headers),
)

-- `findByGrn` of grn-items.repository.ts: the lines by the time of their creation
unfoldable pub insert_item : GrnItem → List GrnItem → List GrnItem
insert_item i [] = i ∷ []
insert_item i (j ∷ js) =
    let rest = insert_item i js in if leb i.created_at j.created_at then i ∷ j ∷ js else j ∷ rest

unfoldable pub sort_items : List GrnItem → List GrnItem
sort_items [] = []
sort_items (i ∷ is) = insert_item i (sort_items is)

unfoldable pub find_by_grn : ℕ → List GrnItem → List GrnItem
find_by_grn grn_id items = sort_items (select (λ (i : GrnItem). i.grn_id == grn_id) items)
