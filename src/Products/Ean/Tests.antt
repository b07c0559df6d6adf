-- ===== src/Products/Ean/Tests.antt =====
-- Barcodes as examples of src/modules/products/utils/ean.utils.ts, and the theorems at them.
use radha_backend.Prelude.{◌≡◌, ◌⊎◌, ◌↔◌, refl, true, false, [], ◌∷◌, ◌++◌, arith, length}
use radha_backend.Products.Ean.{
  Text, only_digits, detect_ean_format, weighted_sum, calc_ean13_check, calc_ean8_check,
  calc_upc_a_check, expand_upc_e, normalise_ean, validate_format, validate_ean,
}
use radha_backend.Products.Ean.Laws.{IsBarcode, validate_ean_iff}
use radha_backend.Products.Ean.Errors.{validate_ean-finds_error}
use radha_backend.Products.Ean.Normal.{normalise_ean-stable}

-- The definitions that a run computes with.
runs : Unit {0}
unfolding only_digits detect_ean_format weighted_sum calc_ean13_check calc_ean8_check
    calc_upc_a_check expand_upc_e normalise_ean validate_format validate_ean
runs = tt

-- 4006381333931, an EAN-13
abbrev front : Text
front = 52 ∷ 48 ∷ 48 ∷ 54 ∷ 51 ∷ 56 ∷ []

abbrev back : Text
back = 51 ∷ 51 ∷ 51 ∷ 57 ∷ 51 ∷ 49 ∷ []

abbrev pencil : Text
pencil = front ++ 49 ∷ back

-- 425261, a UPC-E, with a space in it
abbrev short : Text
short = 52 ∷ 50 ∷ 53 ∷ 32 ∷ 50 ∷ 54 ∷ 49 ∷ []

-- It is expanded to 0042100005264.
short_expands :
    normalise_ean short ≡ 48 ∷ 48 ∷ 52 ∷ 50 ∷ 49 ∷ 48 ∷ 48 ∷ 48 ∷ 48 ∷ 53 ∷ 50 ∷ 54 ∷ 52 ∷ []
unfolding runs
short_expands = refl

validate_ean_iff_example :
    ((validate_ean (front ++ 49 ∷ back)).valid ≡ true)
    ↔ IsBarcode (only_digits (front ++ 49 ∷ back))
validate_ean_iff_example = validate_ean_iff (front ++ 49 ∷ back)

validate_ean-finds_error_example : (validate_ean (front ++ 55 ∷ back)).valid ≡ false
unfolding runs
validate_ean-finds_error_example =
    validate_ean-finds_error front back 49 55 refl refl (omega arith) (omega arith) refl

normalise_ean-stable_example :
    ((length (normalise_ean short) ≡ 8) ⊎ (length (normalise_ean short) ≡ 13))
    × ((validate_ean (normalise_ean short)).valid ≡ true)
    × (normalise_ean (normalise_ean short) ≡ normalise_ean short)
unfolding runs
normalise_ean-stable_example = normalise_ean-stable short refl
