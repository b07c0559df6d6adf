-- ===== src/FeatureFlags/Tests.antt =====
-- Hashes and flags as examples of src/modules/feature-flags, and the theorems at them.
use radha_backend.Prelude.{
  ℕ, zero, suc, ◌+◌, ◌*◌, ◌%◌, ◌≡◌, ◌⊎◌, String, refl, false, true, none, some, List, [], ◌∷◌,
  arith, ltb, leb, lt→ltb,
}
use radha_backend.FeatureFlags.{
  Numbers, fnv1a_loop, fnv1a32, rollout_flag, multivariate_flag, evaluate_definition, total_weight,
}
use radha_backend.FeatureFlags.Buckets.{
  Laws, IsArm, flag_bucket, evaluate_definition-IsArm, evaluate_definition-rollout_mono,
}

-- the published hashes of the empty text, of "a" and of "foobar"
published_hashes :
    (fnv1a32 [] ≡ 0x811c9dc5)
    × (fnv1a32 (97 ∷ []) ≡ 0xe40c292c)
    × (fnv1a32 (102 ∷ 111 ∷ 111 ∷ 98 ∷ 97 ∷ 114 ∷ []) ≡ 0xbf9cf968)
unfolding fnv1a_loop fnv1a32
published_hashes = (refl, refl, refl)

abbrev color : List ℕ
color = 99 ∷ 111 ∷ 108 ∷ []

abbrev user : List ℕ
user = 117 ∷ 49 ∷ []

abbrev arms : List String
arms = "A" ∷ "B" ∷ "C" ∷ []

-- Numbers with two decimals, as hundredths.
reduced : ℕ → ℕ → ℕ
reduced h zero = 0
reduced h (suc n) = h % suc n

abbrev hundredths : Numbers
hundredths = record {
  Number = ℕ;
  of_nat = λ n. n * 100;
  add = λ a b. a + b;
  lt = ltb;
  le = leb;
  rem = reduced;
}

reduced-below : (h n : ℕ) → leb n 0 ≡ false → ltb (reduced h n) n ≡ true
unfolding reduced
reduced-below h zero positive = cc
reduced-below h (suc n) positive = lt→ltb (h % suc n) (suc n) (omega arith)

not_below_zero : (a : ℕ) → ltb a 0 ≡ false
not_below_zero a = ground arith

hundredths-Laws : Laws hundredths
hundredths-Laws = record {
  rem_below = λ h n positive. reduced-below (h * 100) n positive;
  rem_nonneg = λ h n positive. not_below_zero (reduced (h * 100) n);
  hundred = refl;
  lt_trans = λ a b c less most. ground arith;
}

-- 50.5, 30 and 19.5
abbrev shares : List ℕ
shares = 5050 ∷ 3000 ∷ 1950 ∷ []

evaluate_definition-IsArm_example :
    IsArm hundredths
      (flag_bucket hundredths color user (total_weight hundredths 0 shares))
      0
      arms
      shares
      (some (evaluate_definition hundredths color user (multivariate_flag arms shares none)))
evaluate_definition-IsArm_example =
    evaluate_definition-IsArm hundredths hundredths-Laws color user arms shares none refl refl

evaluate_definition-rollout_mono_example :
    (evaluate_definition hundredths color user (rollout_flag 0 "off" "on") ≡ "off")
    × (evaluate_definition hundredths color user (rollout_flag 10000 "off" "on") ≡ "on")
    × ((evaluate_definition hundredths color user (rollout_flag 1250 "off" "on") ≡ "off")
        ⊎ (evaluate_definition hundredths color user (rollout_flag 7550 "off" "on") ≡ "on"))
evaluate_definition-rollout_mono_example =
    evaluate_definition-rollout_mono hundredths hundredths-Laws color user 1250 7550 "off" "on" refl
