-- ===== src/PublicProduct/Tests.antt =====
-- Runs of src/modules/public-product/services/slug.service.ts on products with names in ASCII, and the
-- theorem at that input.
use radha_backend.Prelude.{
  ℕ, ◌+◌, ◌≡◌, refl, ◌&&◌, Option, none, some, List, [], ◌∷◌, arith, leb, map, if◌then◌else◌,
}
use radha_backend.Products.Ean.{Text, only_digits}
use radha_backend.PublicProduct.{
  Product, Written, kebab, compose_base, eq_text, is_slug_taken, walk, generate, backfill_rows,
  after_batch, backfill_all_missing, write_fresh, backfill_row, backfill_found, backfill_product,
}
use radha_backend.PublicProduct.Backfill.{Backfilled, backfill_all_missing-ends}

-- lower case, on ASCII
abbrev lower : Text → Text
lower cs = map (λ (c : ℕ). if leb 65 c && leb c 90 then c + 32 else c) cs

abbrev stamp : ℕ → Text
stamp id = 109 ∷ 52 ∷ []

-- The definitions that a run computes with.
runs : Unit {0}
unfolding kebab compose_base only_digits eq_text is_slug_taken walk generate backfill_rows
    after_batch backfill_all_missing write_fresh backfill_row backfill_found backfill_product
runs = tt

-- "Maggi 2-Minute Noodles!"
abbrev noodles : Text
noodles =
    77 ∷ 97 ∷ 103 ∷ 103 ∷ 105 ∷ 32 ∷ 50 ∷ 45 ∷ 77 ∷ 105 ∷ 110 ∷ 117 ∷ 116 ∷ 101 ∷ 32 ∷ 78 ∷ 111
    ∷ 111 ∷ 100 ∷ 108 ∷ 101 ∷ 115 ∷ 33 ∷ []

-- "maggi-2-minute-noodles"
name_becomes_slug : kebab lower noodles 60 ≡ (
    109 ∷ 97 ∷ 103 ∷ 103 ∷ 105 ∷ 45 ∷ 50 ∷ 45 ∷ 109 ∷ 105 ∷ 110 ∷ 117 ∷ 116 ∷ 101 ∷ 45 ∷ 110 ∷ 111
    ∷ 111 ∷ 100 ∷ 108 ∷ 101 ∷ 115 ∷ [])
unfolding runs
name_becomes_slug = refl

-- " ! "
blank_becomes_product :
    kebab lower (32 ∷ 33 ∷ 32 ∷ []) 60 ≡ (112 ∷ 114 ∷ 111 ∷ 100 ∷ 117 ∷ 99 ∷ 116 ∷ [])
unfolding runs
blank_becomes_product = refl

abbrev product : ℕ → Option ℕ → Option Text → Product
product id tenant slug = record {
  id = id;
  tenant_id = tenant;
  ean = 56 ∷ 57 ∷ 48 ∷ 49 ∷ 48 ∷ 53 ∷ 56 ∷ [];
  name = 84 ∷ 101 ∷ 97 ∷ [];
  public_slug = slug;
}

-- Two products of the catalogue with one name, and a private one.
abbrev products : List Product
products = product 1 none none ∷ product 2 (some 7) none ∷ product 3 none none ∷ []

abbrev slugs_of : Option (List Product × Written ℕ) → List (Option Text)
slugs_of none = []
slugs_of (some r) = map (λ (p : Product). p.public_slug) r.0

-- "tea-1058" and "tea-1058-2"
backfill_numbers : slugs_of (backfill_all_missing lower stamp 3 1 products 0) ≡ (
    some (116 ∷ 101 ∷ 97 ∷ 45 ∷ 49 ∷ 48 ∷ 53 ∷ 56 ∷ [])
    ∷ none
    ∷ some (116 ∷ 101 ∷ 97 ∷ 45 ∷ 49 ∷ 48 ∷ 53 ∷ 56 ∷ 45 ∷ 50 ∷ [])
    ∷ [])
unfolding runs
backfill_numbers = refl

backfill_all_missing-ends_example :
    (r : List Product × Written ℕ) × (backfill_all_missing lower stamp 3 1 products 0 ≡ some r)
    × Backfilled lower stamp 0 products r
backfill_all_missing-ends_example =
    backfill_all_missing-ends lower stamp 3 1 products 0 (omega arith) (omega arith) (omega arith)
