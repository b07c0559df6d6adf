-- ===== src/Inventory/Repositories.antt =====
-- The queries of src/modules/inventory/repositories: items, batches, rules and alerts.
use radha_backend.Prelude.{
  ℕ, String, suc, Bool, true, false, not, ◌&&◌, ◌||◌, Option, none, some, List, [], ◌∷◌, ◌==◌, ltb,
  leb, str_eq, if◌then◌else◌, find, select, is_some,
}
use radha_backend.Prelude.Int.{ℤ, pos, ◌+ℤ◌, ltb_ℤ}
use radha_backend.Inventory.Types.{Item, Batch, Rule, Alert}

-- `(product_id, store_id) = (p, s) AND deleted_at IS NULL`
unfoldable pub item_at : ℕ → ℕ → Item → Bool
item_at p s i = i.product_id == p && (i.store_id == s && not (is_some i.deleted_at))

-- `findByProductAndStore`: the tenant is not in the filter.
unfoldable pub find_by_product_and_store : ℕ → ℕ → List Item → Option Item
find_by_product_and_store p s items = find (item_at p s) items

unfoldable pub batch_at : ℕ → ℕ → Batch → Bool
batch_at p s b = b.product_id == p && b.store_id == s

-- `batch_number = n`, which NULL never satisfies
abbrev pub is_number : Option String → String → Bool
is_number none n = false
is_number (some m) n = str_eq m n

-- `findByBatchNumber`
unfoldable pub find_by_batch_number : ℕ → ℕ → String → List Batch → Option Batch
find_by_batch_number p s n = find (λ b. batch_at p s b && is_number b.batch_number n)

-- `expiry_date ASC NULLS LAST, received_at ASC, created_at ASC`: the order of two rows
abbrev pub fifo_tie : Batch → Batch → Bool
fifo_tie a b =
    ltb a.received_at b.received_at
    || (a.received_at == b.received_at && leb a.created_at b.created_at)

abbrev pub expiry_le : Option ℕ → Option ℕ → Bool → Bool
expiry_le none none tie = tie
expiry_le none (some e) tie = false
expiry_le (some d) none tie = true
expiry_le (some d) (some e) tie = ltb d e || (d == e && tie)

unfoldable pub fifo_le : Batch → Batch → Bool
fifo_le a b = expiry_le a.expiry_date b.expiry_date (fifo_tie a b)

unfoldable pub insert_fifo : Batch → List Batch → List Batch
insert_fifo b [] = b ∷ []
insert_fifo b (c ∷ cs) = let rest = insert_fifo b cs in if fifo_le b c then b ∷ c ∷ cs else c ∷ rest

unfoldable pub sort_fifo : List Batch → List Batch
sort_fifo [] = []
sort_fifo (b ∷ bs) = insert_fifo b (sort_fifo bs)

unfoldable pub in_stock_at : ℕ → ℕ → Batch → Bool
in_stock_at p s b = batch_at p s b && ltb_ℤ (pos 0) b.quantity

-- `findFifoBatches`
unfoldable pub find_fifo_batches : ℕ → ℕ → List Batch → List Batch
find_fifo_batches p s bs = sort_fifo (select (in_stock_at p s) bs)

-- `sumQuantity`
unfoldable pub sum_quantity : ℕ → ℕ → List Batch → ℤ
sum_quantity p s [] = pos 0
sum_quantity p s (b ∷ bs) =
    let rest = sum_quantity p s bs in if batch_at p s b then b.quantity +ℤ rest else rest

abbrev pub is_key : Option ℕ → ℕ → Bool
is_key none k = false
is_key (some j) k = j == k

-- `findProductRule`
unfoldable pub find_product_rule : ℕ → ℕ → List Rule → Option Rule
find_product_rule p s =
    find (λ r. is_key r.product_id p && (r.store_id == s && not (is_some r.deleted_at)))

-- `findCategoryRule`
unfoldable pub find_category_rule : String → ℕ → List Rule → Option Rule
find_category_rule c s =
    find (λ r. is_number r.category c && (r.store_id == s && not (is_some r.deleted_at)))

-- `if (category)`: an absent or empty category is skipped
abbrev pub category_fallback : Option String → ℕ → List Rule → Option Rule
category_fallback none s rules = none
category_fallback (some c) s rules = if str_eq c "" then none else find_category_rule c s rules

-- `findApplicableRule`
unfoldable pub find_applicable_rule : ℕ → ℕ → Option String → List Rule → Option Rule
find_applicable_rule p s category rules = elim (find_product_rule p s rules) [
  | some r ↦ some r
  | none ↦ category_fallback category s rules
]

-- `(product_id, store_id) = (p, s) AND resolved_at IS NULL`
unfoldable pub active_at : ℕ → ℕ → Alert → Bool
active_at p s a = a.product_id == p && (a.store_id == s && not (is_some a.resolved_at))

-- `findActiveForItem`
unfoldable pub find_active_for_item : ℕ → ℕ → List Alert → Option Alert
find_active_for_item p s alerts = find (active_at p s) alerts

abbrev pub create_unless : Option Alert → Alert → List Alert → List Alert × Bool
create_unless (some existing) input alerts = (alerts, false)
create_unless none input alerts = (input ∷ alerts, true)

-- `createIfNotActive`: the alert's table, and whether a row was created
unfoldable pub create_if_not_active : Alert → List Alert → List Alert × Bool
create_if_not_active input alerts =
    create_unless (find_active_for_item input.product_id input.store_id alerts) input alerts

-- `resolveForItem`: the table, and the number of rows that were open
unfoldable pub resolve_for_item : ℕ → ℕ → ℕ → List Alert → List Alert × ℕ
resolve_for_item p s now [] = ([], 0)
resolve_for_item p s now (a ∷ rest) =
    let (rest', n) = resolve_for_item p s now rest in
    if active_at p s a then (record a { resolved_at = some now } ∷ rest', suc n) else (a ∷ rest', n)
