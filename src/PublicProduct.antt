-- ===== src/PublicProduct.antt =====
-- src/modules/public-product/services/slug.service.ts, on the rows of `products`
-- (src/db/schema/products.ts), whose slugs the database keeps unique. A text is the list of its
-- character codes. `fold` is JavaScript's `toLowerCase` followed by `normalize('NFKD')`, and
-- `stamp` the text of the time at which the slug of a product is made. A query without an order
-- gives the rows in the table's order.
pub mod Candidates
pub mod Backfill
mod Tests
use radha_backend.Prelude.{
  ℕ, zero, suc, ◌+◌, ◌-◌, ◌/◌, ◌%◌, Bool, true, false, not, ◌&&◌, ◌||◌, Option, none, some, List,
  [], ◌∷◌, ◌++◌, ◌==◌, ltb, leb, if◌then◌else◌, length, select, find, is_some,
}
use radha_backend.Prelude.Table.{update_where, has_id, find_by_id}
use radha_backend.Products.Ean.{Text, take, drop, only_digits}

-- `products`, the columns that the service reads
pub record Product : Type 0 where
  pub id : ℕ
  pub tenant_id : Option ℕ
  pub ean : Text
  pub name : Text
  pub public_slug : Option Text

abbrev pub product_key : Product → ℕ
product_key r = r.id

abbrev pub is_empty {ℓ} : {A : Type ℓ} → List A → Bool
is_empty [] = true
is_empty (a ∷ rest) = false

-- `text || other`
abbrev pub non_empty_or : Text → Text → Text
non_empty_or [] other = other
non_empty_or (c ∷ cs) other = c ∷ cs

-- `[a-z0-9]`
abbrev pub is_slug_char : ℕ → Bool
is_slug_char c = (leb 97 c && leb c 122) || (leb 48 c && leb c 57)

-- `replace(/[\u0300-\u036f]/g, '')`
abbrev pub drop_marks : Text → Text
drop_marks cs = select (λ c. not (leb 768 c && leb c 879)) cs

-- `replace(/[^a-z0-9]+/g, '-')`: a run of other characters is one dash, and `inside` tells that the
-- dash of the run is written.
abbrev pub hyphenate : Bool → Text → Text
hyphenate inside [] = []
hyphenate inside (c ∷ cs) =
    let after = hyphenate false cs in
    let within = hyphenate true cs in
    if is_slug_char c then c ∷ after else if inside then within else 45 ∷ within

-- `replace(/^-+/, '')` and `replace(/-+$/, '')`
abbrev pub trim_start : Text → Text
trim_start [] = []
trim_start (c ∷ cs) = let rest = trim_start cs in if c == 45 then rest else c ∷ cs

abbrev pub trim_end : Text → Text
trim_end [] = []
trim_end (c ∷ cs) = let rest = trim_end cs in if (c == 45) && is_empty rest then [] else c ∷ rest

-- 'product'
abbrev pub default_name : Text
default_name = 112 ∷ 114 ∷ 111 ∷ 100 ∷ 117 ∷ 99 ∷ 116 ∷ []

-- `kebab`
unfoldable pub kebab : (Text → Text) → Text → ℕ → Text
kebab fold [] max_length = default_name
kebab fold (c ∷ cs) max_length =
    let slug = trim_end (trim_start (hyphenate false (drop_marks (fold (c ∷ cs))))) in
    non_empty_or (trim_end (take max_length (non_empty_or slug default_name))) default_name

-- `composeBase`, with MAX_NAME_SEGMENT
unfoldable pub compose_base : (Text → Text) → Text → Text → Text
compose_base fold name ean =
    let digits = only_digits ean in
    let ean_part = non_empty_or (drop (length digits - 4) digits) (48 ∷ 48 ∷ 48 ∷ 48 ∷ []) in
    kebab fold name 60 ++ 45 ∷ ean_part

-- a number below 100 as its digits
abbrev pub digits_of : ℕ → Text
digits_of n = if ltb n 10 then (48 + n) ∷ [] else (48 + n / 10) ∷ (48 + n % 10) ∷ []

abbrev pub numbered : Text → ℕ → Text
numbered base n = base ++ 45 ∷ digits_of n

unfoldable pub eq_text : Text → Text → Bool
eq_text [] [] = true
eq_text [] (b ∷ t) = false
eq_text (a ∷ s) [] = false
eq_text (a ∷ s) (b ∷ t) = (a == b) && eq_text s t

abbrev pub slug_is : Text → Option Text → Bool
slug_is slug none = false
slug_is slug (some s) = eq_text s slug

-- The row of another product has the slug.
abbrev pub holds_slug : Text → ℕ → Product → Bool
holds_slug slug id r = slug_is slug r.public_slug && not (r.id == id)

-- `isSlugTaken`
unfoldable pub is_slug_taken : Text → ℕ → List Product → Bool
is_slug_taken slug id rows = is_some (find (holds_slug slug id) rows)

-- `publicSlug: text(…).unique()`: what an `update` of the slug does, or the index refuses it.
pub data Written {ℓ} (A : Type ℓ) : Type ℓ where
  written : A → Written A
  duplicate_slug : Written A

abbrev pub with_slug : Text → Product → Product
with_slug slug r = record r { public_slug = some slug }

-- `db.update(products).set({ publicSlug }).where(eq(products.id, id))`
abbrev pub write_slug : Text → ℕ → List Product → List Product
write_slug slug id rows = update_where (has_id product_key id) (with_slug slug) rows

-- `isNull(products.publicSlug)` and `isNull(products.tenantId)`
abbrev pub is_missing : Product → Bool
is_missing r = not (is_some r.public_slug) && not (is_some r.tenant_id)

-- `LIMIT`
abbrev pub limit {ℓ} : {A : Type ℓ} → ℕ → List A → List A
limit zero rest = []
limit (suc n) [] = []
limit (suc n) (a ∷ rest) = a ∷ limit n rest

module _ (fold : Text → Text) (stamp : ℕ → Text) where
  -- The loop of `generate`: `left` attempts are left, and `attempt` is the number of this one.
  unfoldable pub walk : ℕ → ℕ → Text → Text → ℕ → List Product → Text
  walk zero attempt base candidate id rows = base ++ 45 ∷ stamp id
  walk (suc left) attempt base candidate id rows =
      let rest = walk left (suc attempt) base (numbered base (attempt + 1)) id rows in
      if is_slug_taken candidate id rows then rest else candidate

  -- `generate`, with MAX_COLLISION_RETRIES
  unfoldable pub generate : Text → Text → ℕ → List Product → Text
  generate name ean id rows = let base = compose_base fold name ean in walk 50 1 base base id rows

  -- The body of the loop over the rows of a batch. The rows written before a refusal stay written.
  unfoldable pub backfill_rows : List Product → List Product → ℕ → List Product × Written ℕ
  backfill_rows [] rows total = (rows, written total)
  backfill_rows (r ∷ rs) rows total =
      let slug = generate r.name r.ean r.id rows in
      let rest = backfill_rows rs (write_slug slug r.id rows) (total + 1) in
      if is_slug_taken slug r.id rows then (rows, duplicate_slug) else rest

  -- After a batch: the exception leaves, a short batch ends the loop, and a full one goes on.
  unfoldable pub after_batch :
      (List Product → ℕ → Option (List Product × Written ℕ))
      → Bool
      → List Product × Written ℕ
      → Option (List Product × Written ℕ)
  after_batch next short (rows, duplicate_slug) = some (rows, duplicate_slug)
  after_batch next true (rows, written total) = some (rows, written total)
  after_batch next false (rows, written total) = next rows total

  -- `backfillAllMissing`, `none` where the fuel runs out.
  unfoldable pub backfill_all_missing : ℕ → ℕ → List Product → ℕ → Option (List Product × Written ℕ)
  backfill_all_missing zero batch_size rows total = none
  backfill_all_missing (suc fuel) batch_size rows total =
      let batch = limit batch_size (select is_missing rows) in
      let rest =
        after_batch (backfill_all_missing fuel batch_size) (ltb (length batch) batch_size)
          (backfill_rows batch rows total) in
      if is_empty batch then some (rows, written total) else rest

  -- `backfillProduct`: the slug is generated and written, unless the product is private or has a
  -- slug that need not be replaced.
  unfoldable pub write_fresh : Product → List Product → List Product × Written (Option Text × Bool)
  write_fresh r rows =
      let slug = generate r.name r.ean r.id rows in
      if is_slug_taken slug r.id rows
      then (rows, duplicate_slug)
      else (write_slug slug r.id rows, written (some slug, true))

  unfoldable pub backfill_row :
      Bool → Product → Option Text → List Product → List Product × Written (Option Text × Bool)
  backfill_row force r none rows = write_fresh r rows
  backfill_row force r (some slug) rows =
      if not (is_empty slug) && not force
      then (rows, written (some slug, false))
      else write_fresh r rows

  unfoldable pub backfill_found :
      Bool → Option Product → List Product → List Product × Written (Option Text × Bool)
  backfill_found force none rows = (rows, written (none, false))
  backfill_found force (some r) rows =
      if is_some r.tenant_id
      then (rows, written (r.public_slug, false))
      else backfill_row force r r.public_slug rows

  unfoldable pub backfill_product :
      ℕ → Bool → List Product → List Product × Written (Option Text × Bool)
  backfill_product id force rows = backfill_found force (find_by_id product_key id rows) rows
