-- ===== src/Products/Ean.antt =====
-- src/modules/products/utils/ean.utils.ts. A text is the list of its character codes.
pub mod Checksum
pub mod Laws
pub mod Normal
pub mod Errors
mod Tests
use radha_backend.Prelude.{
  ℕ, ◌+◌, ◌-◌, ◌*◌, ◌%◌, zero, suc, Bool, true, false, not, ◌&&◌, Option, none, some, List, [], ◌∷◌,
  ◌++◌, ◌==◌, leb, if◌then◌else◌, length, select,
}

abbrev pub Text : Type 0
Text = List ℕ

abbrev pub is_digit : ℕ → Bool
is_digit c = leb 48 c && leb c 57

-- `onlyDigits`
unfoldable pub only_digits : Text → Text
only_digits raw = select is_digit raw

-- `slice(0, n)`, and the character at a place, as the list of it and what follows
abbrev pub take : ℕ → Text → Text
take zero cs = []
take (suc n) [] = []
take (suc n) (c ∷ cs) = c ∷ take n cs

abbrev pub drop : ℕ → Text → Text
drop zero cs = cs
drop (suc n) [] = []
drop (suc n) (c ∷ cs) = drop n cs

-- `EanFormat`
pub data EanFormat : Type 0 where
  ean_8 ean_13 upc_a upc_e invalid : EanFormat

abbrev pub format_of_length : ℕ → EanFormat
format_of_length n =
    if n == 8
    then ean_8
    else if n == 12
    then upc_a
    else if n == 13
    then ean_13
    else if n == 6
    then upc_e
    else invalid

-- `detectEanFormat`
unfoldable pub detect_ean_format : Text → EanFormat
detect_ean_format raw = format_of_length (length (only_digits raw))

-- The loop of the check digits: every second digit counts three times, the first one or the second.
unfoldable pub weighted_sum : Bool → Text → ℕ
weighted_sum triple [] = 0
weighted_sum triple (c ∷ cs) =
    let rest = weighted_sum (not triple) cs in (if triple then (c - 48) * 3 else c - 48) + rest

-- `calcEan13Check`, `calcEan8Check` and `calcUpcACheck`, on a text of their length
unfoldable pub calc_ean13_check : Text → ℕ
calc_ean13_check first12 = (10 - weighted_sum false first12 % 10) % 10

unfoldable pub calc_ean8_check : Text → ℕ
calc_ean8_check first7 = (10 - weighted_sum true first7 % 10) % 10

unfoldable pub calc_upc_a_check : Text → ℕ
calc_upc_a_check first11 = (10 - weighted_sum true first11 % 10) % 10

-- The zeros of a template.
abbrev pub zeros4 : Text → Text
zeros4 cs = 48 ∷ 48 ∷ 48 ∷ 48 ∷ cs

abbrev pub first_eleven : ℕ → ℕ → ℕ → ℕ → ℕ → ℕ → Text
first_eleven a b c d e last =
    if leb 48 last && leb last 50
    then 48 ∷ a ∷ b ∷ last ∷ zeros4 (c ∷ d ∷ e ∷ [])
    else if last == 51
    then 48 ∷ a ∷ b ∷ c ∷ 48 ∷ zeros4 (d ∷ e ∷ [])
    else if last == 52
    then 48 ∷ a ∷ b ∷ c ∷ d ∷ 48 ∷ zeros4 (e ∷ [])
    else 48 ∷ a ∷ b ∷ c ∷ d ∷ e ∷ zeros4 (last ∷ [])

-- `expandUpcE`: a text of another length than six is left alone
unfoldable pub expand_upc_e : Text → Text
expand_upc_e (a ∷ b ∷ c ∷ d ∷ e ∷ last ∷ []) =
    let first11 = first_eleven a b c d e last in first11 ++ (48 + calc_upc_a_check first11) ∷ []
expand_upc_e cs = cs

-- `normaliseEan`
unfoldable pub normalise_ean : Text → Text
normalise_ean raw =
    let digits = only_digits raw in
    let n = length digits in
    if n == 13
    then digits
    else if n == 12
    then 48 ∷ digits
    else if n == 8
    then digits
    else if n == 6
    then 48 ∷ expand_upc_e digits
    else digits

pub data EanError : Type 0 where
  ean_required : EanError
  invalid_length : ℕ → EanError
  invalid_check_digit : EanFormat → EanError

-- `EanValidationResult`
pub record EanValidation : Type 0 where
  pub valid : Bool
  pub format : EanFormat
  pub normalised : Option Text
  pub error : Option EanError

abbrev pub refused : EanFormat → EanError → EanValidation
refused format e = record { valid = false; format = format; normalised = none; error = some e }

abbrev pub accepted : EanFormat → Text → EanValidation
accepted format digits = record {
  valid = true;
  format = format;
  normalised = some (normalise_ean digits);
  error = none;
}

-- `Number(digits[n]) !== expected`, where the text has a digit at `n`
abbrev pub check_digit : Text → ℕ → Bool
check_digit (c ∷ []) expected = (c - 48) == expected
check_digit cs expected = false

abbrev pub checked : EanFormat → Bool → Text → EanValidation
checked format true digits = accepted format digits
checked format false digits = refused format (invalid_check_digit format)

unfoldable pub validate_format : EanFormat → Text → EanValidation
validate_format invalid digits = refused invalid (invalid_length (length digits))
validate_format ean_13 digits =
    checked ean_13 (check_digit (drop 12 digits) (calc_ean13_check (take 12 digits))) digits
validate_format ean_8 digits =
    checked ean_8 (check_digit (drop 7 digits) (calc_ean8_check (take 7 digits))) digits
validate_format upc_a digits =
    checked upc_a (check_digit (drop 11 digits) (calc_upc_a_check (take 11 digits))) digits
validate_format upc_e digits = accepted upc_e digits

-- `validateEan`
unfoldable pub validate_ean : Text → EanValidation
validate_ean [] = refused invalid ean_required
validate_ean (c ∷ cs) =
    let digits = only_digits (c ∷ cs) in validate_format (detect_ean_format digits) digits
