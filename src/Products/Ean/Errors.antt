-- ===== src/Products/Ean/Errors.antt =====
-- src/modules/products/utils/ean.utils.ts: the check digit finds a digit read wrong.
use radha_backend.Prelude.{
  ℕ, suc, ◌+◌, ◌-◌, ◌*◌, ◌%◌, ◌≡◌, ◌≢◌, refl, ap, ◌∙◌, true, false, [], ◌∷◌, ◌++◌, arith,
  if◌then◌else◌, length, inl, inr, Bool-cases,
}
use radha_backend.Products.Ean.{Text, is_digit, only_digits, validate_ean}
use radha_backend.Products.Ean.Checksum.{even, gs1_sum}
use radha_backend.Products.Ean.Laws.{IsBarcode, validate_ean_iff}

abbrev weighted : Text → ℕ → ℕ
weighted ys c = if even (length ys) then c - 48 else (c - 48) * 3

length-middle : (xs ys : Text) (a b : ℕ) → length (xs ++ a ∷ ys) ≡ length (xs ++ b ∷ ys)
length-middle [] ys a b = refl
length-middle (x ∷ xs) ys a b = ap (λ n. suc n) (length-middle xs ys a b)

gs1_sum-middle :
    (xs ys : Text) (a b : ℕ)
    → gs1_sum (xs ++ a ∷ ys) + weighted ys b ≡ gs1_sum (xs ++ b ∷ ys) + weighted ys a
gs1_sum-middle [] ys a b = omega arith
gs1_sum-middle (x ∷ xs) ys a b =
    let rest = gs1_sum-middle xs ys a b in rw (length-middle xs ys a b) (omega (arith, rest))

only_digits-middle :
    (xs ys : Text) (a : ℕ)
    → is_digit a ≡ true
    → only_digits (xs ++ a ∷ ys) ≡ only_digits xs ++ a ∷ only_digits ys
unfolding only_digits
only_digits-middle [] ys a digit = rw digit refl
only_digits-middle (x ∷ xs) ys a digit = elim (Bool-cases (is_digit x)) [
  | inl e ↦ rw e (ap (λ cs. x ∷ cs) (only_digits-middle xs ys a digit))
  | inr e ↦ rw e (only_digits-middle xs ys a digit)
]

-- Both weights are prime to ten.
weighted-injective :
    (ys : Text) (a b s t : ℕ)
    → is_digit a ≡ true
    → is_digit b ≡ true
    → s % 10 ≡ 0
    → t % 10 ≡ 0
    → s + weighted ys b ≡ t + weighted ys a
    → a ≡ b
weighted-injective ys a b s t digit digit' hs ht e = elim (Bool-cases (even (length ys))) [
  | inl once ↦ let sum = rw once at e in ground (arith, digit, digit', hs, ht, sum)
  | inr thrice ↦ let sum = rw thrice at e in ground (arith, digit, digit', hs, ht, sum)
]

-- In a text that is valid, and has not six digits, any one digit replaced by another one makes the
-- text invalid.
pub validate_ean-finds_error :
    (xs ys : Text) (a b : ℕ)
    → is_digit a ≡ true
    → is_digit b ≡ true
    → a ≢ b
    → length (only_digits (xs ++ a ∷ ys)) ≢ 6
    → (validate_ean (xs ++ a ∷ ys)).valid ≡ true
    → (validate_ean (xs ++ b ∷ ys)).valid ≡ false
validate_ean-finds_error xs ys a b digit digit' other long valid =
    elim (Bool-cases (validate_ean (xs ++ b ∷ ys)).valid) [
      | inr found ↦ found
      | inl missed ↦
          let ds = only_digits xs in
          let es = only_digits ys in
          let first : IsBarcode (ds ++ a ∷ es) =
            rw (only_digits-middle xs ys a digit) at ((validate_ean_iff (xs ++ a ∷ ys)).0 valid) in
          let second : IsBarcode (ds ++ b ∷ es) =
            rw (only_digits-middle xs ys b digit') at
              ((validate_ean_iff (xs ++ b ∷ ys)).0 missed) in
          let size = rw (only_digits-middle xs ys a digit) at long in
          elim first [
            | inl six ↦ absurd (size six)
            | inr one ↦ elim second [
              | inl six ↦ absurd (size (length-middle ds es a b ∙ six))
              | inr two ↦ absurd (
                  other (
                    weighted-injective es a b (gs1_sum (ds ++ a ∷ es)) (gs1_sum (ds ++ b ∷ es))
                      digit digit' one.1 two.1 (gs1_sum-middle ds es a b)))
            ]
          ]
    ]
