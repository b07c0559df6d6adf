-- ===== src/Products/Ean/Normal.antt =====
-- src/modules/products/utils/ean.utils.ts: the text that a valid barcode is stored as.
use radha_backend.Prelude.{
  ℕ, suc, ◌+◌, ◌-◌, ◌%◌, ◌≡◌, ◌⊎◌, ◌&&◌, refl, ap, ◌∙◌, true, [], ◌∷◌, ◌++◌, arith, ◌==◌, length,
  inl, inr, Bool-cases, leb,
}
use radha_backend.Products.Ean.{
  Text, is_digit, only_digits, normalise_ean, expand_upc_e, first_eleven, calc_upc_a_check,
  weighted_sum, validate_ean,
}
use radha_backend.Products.Ean.Checksum.{gs1_sum, gs1_sum-snoc, length-snoc}
use radha_backend.Products.Ean.Laws.{
  AllDigits, IsBarcode, only_digits-AllDigits, only_digits-id, validate_ean_iff,
}

AllDigits-snoc : (xs : Text) (d : ℕ) → AllDigits xs → is_digit d ≡ true → AllDigits (xs ++ d ∷ [])
AllDigits-snoc [] d u h = (h, tt)
AllDigits-snoc (x ∷ xs) d u h = (u.0, AllDigits-snoc xs d u.1 h)

first_eleven-AllDigits :
    (a b c d e last : ℕ)
    → AllDigits (a ∷ b ∷ c ∷ d ∷ e ∷ last ∷ [])
    → AllDigits (first_eleven a b c d e last) × (length (first_eleven a b c d e last) ≡ 11)
first_eleven-AllDigits a b c d e last (ua, (ub, (uc, (ud, (ue, (ul, u)))))) =
    elim (Bool-cases (leb 48 last && leb last 50)) [
      | inl k ↦
          rw k
            ((refl, (ua, (ub, (ul, (refl, (refl, (refl, (refl, (uc, (ud, (ue, tt))))))))))), refl)
      | inr k ↦ elim (Bool-cases (last == 51)) [
        | inl k3 ↦
            rw (k, k3)
              (
                (refl, (ua, (ub, (uc, (refl, (refl, (refl, (refl, (refl, (ud, (ue, tt))))))))))),
                refl,
              )
        | inr k3 ↦ elim (Bool-cases (last == 52)) [
          | inl k4 ↦
              rw (k, k3, k4)
                (
                  (refl, (ua, (ub, (uc, (ud, (refl, (refl, (refl, (refl, (refl, (ue, tt))))))))))),
                  refl,
                )
          | inr k4 ↦
              rw (k, k3, k4)
                (
                  (refl, (ua, (ub, (uc, (ud, (ue, (refl, (refl, (refl, (refl, (ul, tt))))))))))),
                  refl,
                )
        ]
      ]
    ]

-- Digits with the right check digit, as many as `n`.
abbrev IsChecked : ℕ → Text → Type 0
IsChecked n ds = AllDigits ds × (length ds ≡ n) × (gs1_sum ds % 10 ≡ 0)

-- Eleven digits and their check digit.
eleven-IsChecked :
    (xs : Text)
    → AllDigits xs
    → length xs ≡ 11
    → IsChecked 12 (xs ++ (48 + calc_upc_a_check xs) ∷ [])
unfolding calc_upc_a_check
eleven-IsChecked xs u size =
    let sum = rw size at (gs1_sum-snoc xs (48 + calc_upc_a_check xs)) in
    let digit : is_digit (48 + (10 - weighted_sum true xs % 10) % 10) ≡ true = ground arith in
    (
      AllDigits-snoc xs (48 + calc_upc_a_check xs) u digit,
      length-snoc xs (48 + calc_upc_a_check xs) ∙ ap (λ n. suc n) size,
      omega (arith, sum),
    )

expand_upc_e-IsChecked : (ds : Text) → AllDigits ds → length ds ≡ 6 → IsChecked 12 (expand_upc_e ds)
unfolding expand_upc_e
expand_upc_e-IsChecked (a ∷ b ∷ c ∷ d ∷ e ∷ last ∷ []) u size =
    let (digits, eleven) = first_eleven-AllDigits a b c d e last u in
    eleven-IsChecked (first_eleven a b c d e last) digits eleven
expand_upc_e-IsChecked [] u size = absurd (omega (arith, size))
expand_upc_e-IsChecked (a ∷ []) u size = absurd (omega (arith, size))
expand_upc_e-IsChecked (a ∷ b ∷ []) u size = absurd (omega (arith, size))
expand_upc_e-IsChecked (a ∷ b ∷ c ∷ []) u size = absurd (omega (arith, size))
expand_upc_e-IsChecked (a ∷ b ∷ c ∷ d ∷ []) u size = absurd (omega (arith, size))
expand_upc_e-IsChecked (a ∷ b ∷ c ∷ d ∷ e ∷ []) u size = absurd (omega (arith, size))
expand_upc_e-IsChecked (a ∷ b ∷ c ∷ d ∷ e ∷ f ∷ g ∷ ds) u size = absurd (omega (arith, size))

-- A zero in front of twelve digits leaves their sum.
zero_prefix : (ds : Text) → IsChecked 12 ds → IsChecked 13 (48 ∷ ds)
zero_prefix ds (u, size, sum) = ((refl, u), ap (λ n. suc n) size, rw size (omega (arith, sum)))

abbrev IsStored : Text → Type 0
IsStored ds = IsChecked 8 ds ⊎ IsChecked 13 ds

normalise_ean-IsStored : (raw : Text) → IsBarcode (only_digits raw) → IsStored (normalise_ean raw)
unfolding normalise_ean
normalise_ean-IsStored raw code =
    let u = only_digits-AllDigits raw in
    elim code [
      | inl six ↦ rw six (inr (zero_prefix _ (expand_upc_e-IsChecked (only_digits raw) u six)))
      | inr (long, sum) ↦ elim long [
        | inl size ↦ rw size (inl (u, size, sum))
        | inr other ↦ elim other [
          | inl size ↦ rw size (inr (zero_prefix _ (u, size, sum)))
          | inr size ↦ rw size (inr (u, size, sum))
        ]
      ]
    ]

normalise_ean-id : (ds : Text) → IsStored ds → normalise_ean ds ≡ ds
unfolding normalise_ean
normalise_ean-id ds (inl (u, size, sum)) = rw (only_digits-id ds u, size) refl
normalise_ean-id ds (inr (u, size, sum)) = rw (only_digits-id ds u, size) refl

stored-IsBarcode : (ds : Text) → IsStored ds → IsBarcode (only_digits ds)
stored-IsBarcode ds (inl (u, size, sum)) = rw (only_digits-id ds u) (inr (inl size, sum))
stored-IsBarcode ds (inr (u, size, sum)) = rw (only_digits-id ds u) (inr (inr (inr size), sum))

-- A valid text of any of the formats is normalised to 8 or 13 digits. They are valid in their turn,
-- and normalising them again changes nothing.
pub normalise_ean-stable :
    (raw : Text)
    → (validate_ean raw).valid ≡ true
    → ((length (normalise_ean raw) ≡ 8) ⊎ (length (normalise_ean raw) ≡ 13))
      × ((validate_ean (normalise_ean raw)).valid ≡ true)
      × (normalise_ean (normalise_ean raw) ≡ normalise_ean raw)
normalise_ean-stable raw valid =
    let stored = normalise_ean-IsStored raw ((validate_ean_iff raw).0 valid) in
    (
      elim stored [ inl (u, size, sum) ↦ inl size | inr (u, size, sum) ↦ inr size ],
      (validate_ean_iff (normalise_ean raw)).1 (stored-IsBarcode (normalise_ean raw) stored),
      normalise_ean-id (normalise_ean raw) stored,
    )
