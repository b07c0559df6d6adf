-- ===== src/Products/Ean/Laws.antt =====
-- src/modules/products/utils/ean.utils.ts: which barcodes are valid, and what normalising makes of
-- them.
use radha_backend.Prelude.{
  ℕ, suc, ◌%◌, ◌≡◌, ◌↔◌, ◌⊎◌, refl, sym, ap, ◌∙◌, Bool, true, false, not, [], ◌∷◌, arith, ◌==◌,
  ==_iff, length, All, inl, inr, Bool-cases, select,
}
use radha_backend.Prelude.Table.Laws.{select-holds}
use radha_backend.Products.Ean.{
  Text, is_digit, only_digits, take, drop, EanFormat, ean_8, ean_13, upc_a, format_of_length,
  detect_ean_format, calc_ean13_check, calc_ean8_check, calc_upc_a_check, check_digit, checked,
  validate_format, validate_ean,
}
use radha_backend.Products.Ean.Checksum.{even, gs1_sum, check_of, check_digit_iff}

abbrev pub AllDigits : Text → Type 0
AllDigits = All (λ c. is_digit c ≡ true)

-- What the program takes for a barcode: six digits, or 8, 12 or 13 digits whose weighted sum is a
-- multiple of ten.
abbrev pub IsBarcode : Text → Type 0
IsBarcode ds =
    (length ds ≡ 6)
    ⊎ (((length ds ≡ 8) ⊎ (length ds ≡ 12) ⊎ (length ds ≡ 13)) × (gs1_sum ds % 10 ≡ 0))

pub only_digits-AllDigits : (raw : Text) → AllDigits (only_digits raw)
unfolding only_digits
only_digits-AllDigits raw = select-holds is_digit raw

pub only_digits-id : (ds : Text) → AllDigits ds → only_digits ds ≡ ds
unfolding only_digits
only_digits-id [] u = refl
only_digits-id (d ∷ ds) u = rw u.0 (ap (λ x. d ∷ x) (only_digits-id ds u.1))

checked-valid : (f : EanFormat) (b : Bool) (ds : Text) → (checked f b ds).valid ≡ b
checked-valid f true ds = refl
checked-valid f false ds = refl

validate_long :
    (f : EanFormat) (n : ℕ) (ds : Text)
    → (length ds ≡ 8) ⊎ (length ds ≡ 12) ⊎ (length ds ≡ 13)
    → length ds ≡ suc n
    → AllDigits ds
    → ((checked f (check_digit (drop n ds) (check_of (not (even n)) (take n ds))) ds).valid ≡ true)
      ↔ IsBarcode ds
validate_long f n ds long size u =
    let digit = check_digit_iff n ds size u in
    let reads =
      checked-valid f (check_digit (drop n ds) (check_of (not (even n)) (take n ds))) ds in
    (
      λ h. inr (long, digit.0 (sym reads ∙ h)),
      λ h. elim h [
        | inl six ↦ absurd (ground (arith, six, long))
        | inr whole ↦ reads ∙ digit.1 whole.1
      ],
    )

validate_digits_iff :
    (ds : Text)
    → AllDigits ds
    → ((validate_format (format_of_length (length ds)) ds).valid ≡ true) ↔ IsBarcode ds
unfolding validate_format calc_ean13_check calc_ean8_check calc_upc_a_check
validate_digits_iff ds u = elim (Bool-cases (length ds == 8)) [
  | inl e8 ↦
      let size = (==_iff (length ds) 8).0 e8 in rw e8 (validate_long ean_8 7 ds (inl size) size u)
  | inr n8 ↦ elim (Bool-cases (length ds == 12)) [
    | inl e12 ↦
        let size = (==_iff (length ds) 12).0 e12 in
        rw (n8, e12) (validate_long upc_a 11 ds (inr (inl size)) size u)
    | inr n12 ↦ elim (Bool-cases (length ds == 13)) [
      | inl e13 ↦
          let size = (==_iff (length ds) 13).0 e13 in
          rw (n8, n12, e13) (validate_long ean_13 12 ds (inr (inr size)) size u)
      | inr n13 ↦ elim (Bool-cases (length ds == 6)) [
        | inl e6 ↦ rw (n8, n12, n13, e6) (λ h. inl ((==_iff (length ds) 6).0 e6), λ h. refl)
        | inr n6 ↦
            rw (n8, n12, n13, n6)
              (
                λ h. cc,
                λ h. elim h [
                  | inl size ↦ absurd (ground (arith, size, n6))
                  | inr long ↦ elim long.0 [
                    | inl size ↦ absurd (ground (arith, size, n8))
                    | inr other ↦ elim other [
                      | inl size ↦ absurd (ground (arith, size, n12))
                      | inr size ↦ absurd (ground (arith, size, n13))
                    ]
                  ]
                ],
              )
      ]
    ]
  ]
]

-- A text is valid exactly when its digits are six, or are 8, 12 or 13 and, counted once and three
-- times in turn from the right, add up to a multiple of ten.
pub validate_ean_iff :
    (raw : Text) → ((validate_ean raw).valid ≡ true) ↔ IsBarcode (only_digits raw)
unfolding validate_ean detect_ean_format only_digits
validate_ean_iff [] = (λ h. cc, λ h. ground (arith, h))
validate_ean_iff (c ∷ cs) =
    let digits = select is_digit (c ∷ cs) in
    rw (only_digits-id digits (select-holds is_digit (c ∷ cs)))
      (validate_digits_iff digits (select-holds is_digit (c ∷ cs)))
