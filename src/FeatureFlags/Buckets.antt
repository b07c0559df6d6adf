-- ===== src/FeatureFlags/Buckets.antt =====
-- src/modules/feature-flags: which variant a bucket gets.
use radha_backend.Prelude.{
  ℕ, zero, suc, ◌≡◌, String, refl, sym, ap, ◌∙◌, ◌⊎◌, true, false, Option, none, some, List, [],
  ◌∷◌, ◌++◌, arith, inl, inr, Bool-cases, length,
}
use radha_backend.FeatureFlags.{
  Numbers, fnv1a32, bucket_of, FlagDefinition, rollout_flag, multivariate_flag, total_weight,
  head_weight, tail_weights, pick_variant, multivariate, evaluate_definition,
}

-- What JavaScript documents of its numbers: the remainder of a hash by a positive number is exact,
-- so it is neither negative nor as large as the number; 100 is positive; and a number that is less
-- than another is less than what that one is at most. No law of addition is asked for.
pub record Laws (N : Numbers) : Type 0 where
  pub rem_below :
      (h : ℕ) (n : N.Number) → N.le n (N.of_nat 0) ≡ false → N.lt (N.rem (N.of_nat h) n) n ≡ true
  pub rem_nonneg :
      (h : ℕ) (n : N.Number)
      → N.le n (N.of_nat 0) ≡ false
      → N.lt (N.rem (N.of_nat h) n) (N.of_nat 0) ≡ false
  pub hundred : N.le (N.of_nat 100) (N.of_nat 0) ≡ false
  pub lt_trans : (a b c : N.Number) → N.lt a b ≡ true → N.le b c ≡ true → N.lt a c ≡ true

abbrev pub variant_at : ℕ → List String → Option String
variant_at k [] = none
variant_at zero (v ∷ vs) = some v
variant_at (suc k) (v ∷ vs) = variant_at k vs

module _ (N : Numbers) where
  open N use {Number, of_nat, add, lt, le, rem}

  -- The sum of the first `k` weights, added up one after the other from `s` on.
  abbrev pub weight_before : ℕ → Number → List Number → Number
  weight_before zero s ws = s
  weight_before (suc k) s ws = weight_before k (add s (head_weight N ws)) (tail_weights N ws)

  -- The arm `k` is the one whose share of the weights the bucket falls into.
  pub record IsArm (bucket cursor : Number) (vs : List String) (ws : List Number)
      (o : Option String) : Type 0 where
    pub arm : ℕ
    pub variant : String
    pub chosen : o ≡ some variant
    pub there : variant_at arm vs ≡ some variant
    pub above : lt bucket (weight_before arm cursor ws) ≡ false
    pub below : lt bucket (weight_before (suc arm) cursor ws) ≡ true

  pick_variant-IsArm :
      (bucket cursor : Number) (vs : List String) (ws : List Number)
      → length vs ≡ length ws
      → lt bucket cursor ≡ false
      → lt bucket (total_weight N cursor ws) ≡ true
      → IsArm bucket cursor vs ws (pick_variant N bucket cursor vs ws)
  unfolding pick_variant
  pick_variant-IsArm bucket cursor [] [] size low high =
      absurd (let clash : false ≡ true = sym low ∙ high in cc)
  pick_variant-IsArm bucket cursor [] (w ∷ ws) size low high = absurd (omega (arith, size))
  pick_variant-IsArm bucket cursor (v ∷ vs) [] size low high = absurd (omega (arith, size))
  pick_variant-IsArm bucket cursor (v ∷ vs) (w ∷ ws) size low high =
      elim (Bool-cases (lt bucket (add cursor w))) [
        | inl hit ↦ record {
          arm = 0;
          variant = v;
          chosen = rw hit refl;
          there = refl;
          above = low;
          below = hit;
        }
        | inr miss ↦
            let rest =
              pick_variant-IsArm bucket (add cursor w) vs ws (omega (arith, size)) miss high in
            record {
              arm = suc rest.arm;
              variant = rest.variant;
              chosen = rw miss rest.chosen;
              there = rest.there;
              above = rest.above;
              below = rest.below;
            }
      ]

  -- Where the loop finds a variant, it is the result.
  multivariate-picked :
      (composite : List ℕ) (vs : List String) (ws : List Number) (def : FlagDefinition Number)
      (total : Number) (k : ℕ) {v : String}
      → le total (of_nat 0) ≡ false
      → variant_at k vs ≡ some v
      → pick_variant N (bucket_of N composite total) (of_nat 0) vs ws ≡ some v
      → multivariate N composite vs ws def total ≡ v
  multivariate-picked composite [] ws def total k positive there e = cc
  multivariate-picked composite (w ∷ vs) ws def total k positive there e = rw (positive, e) refl

  -- The bucket of a user for a flag.
  abbrev pub flag_bucket : List ℕ → List ℕ → Number → Number
  flag_bucket flag_name bucket_key n = bucket_of N (flag_name ++ 58 ∷ bucket_key) n

  bucket_of-rem :
      (input : List ℕ) (n : Number)
      → le n (of_nat 0) ≡ false
      → bucket_of N input n ≡ rem (of_nat (fnv1a32 input)) n
  unfolding bucket_of
  bucket_of-rem input n positive = rw positive refl

module _ (N : Numbers) (laws : Laws N) where
  open N use {Number, of_nat, lt, le}

  bucket_of-bound :
      (input : List ℕ) (n : Number)
      → le n (of_nat 0) ≡ false
      → (lt (bucket_of N input n) n ≡ true) × (lt (bucket_of N input n) (of_nat 0) ≡ false)
  bucket_of-bound input n positive =
      rw (bucket_of-rem N input n positive)
        (laws.rem_below (fnv1a32 input) n positive, laws.rem_nonneg (fnv1a32 input) n positive)

  -- A multivariate flag with as many weights as variants and a total weight above 0 gives the user
  -- the variant whose share of the total weight the user's bucket falls into: the bucket is less than
  -- the sum of the weights up to and with the variant's, and not less than the sum of those before
  -- it. So the fallbacks after the loop are never reached. This holds of floating-point weights too:
  -- the sums are rounded as the code rounds them, and only the remainder has to be exact.
  pub evaluate_definition-IsArm :
      (flag_name bucket_key : List ℕ) (variants : List String) (weights : List Number)
      (default : Option String)
      → length variants ≡ length weights
      → le (total_weight N (of_nat 0) weights) (of_nat 0) ≡ false
      → IsArm N
          (flag_bucket N flag_name bucket_key (total_weight N (of_nat 0) weights))
          (of_nat 0)
          variants
          weights
          (some (
            evaluate_definition N flag_name bucket_key
              (multivariate_flag variants weights default)))
  unfolding evaluate_definition
  evaluate_definition-IsArm flag_name bucket_key variants weights default size positive =
      let composite = flag_name ++ 58 ∷ bucket_key in
      let total = total_weight N (of_nat 0) weights in
      let inside = bucket_of-bound composite total positive in
      let arm =
        pick_variant-IsArm N (bucket_of N composite total) (of_nat 0) variants weights size inside.1
          inside.0 in
      record {
        arm = arm.arm;
        variant = arm.variant;
        chosen =
            ap (λ v. some v)
              (multivariate-picked N composite variants weights _ total arm.arm positive arm.there
                arm.chosen);
        there = arm.there;
        above = arm.above;
        below = arm.below;
      }

  -- A rollout of 0 percent gives every user the default variant, and one of 100 percent gives every
  -- user the other one. Of two percentages, a user who does not get the default variant at the lower
  -- one gets the other variant at the higher one.
  pub evaluate_definition-rollout_mono :
      (flag_name bucket_key : List ℕ) (p q : Number) (default on : String)
      → le p q ≡ true
      → (evaluate_definition N flag_name bucket_key (rollout_flag (of_nat 0) default on) ≡ default)
        × (evaluate_definition N flag_name bucket_key (rollout_flag (of_nat 100) default on) ≡ on)
        × ((evaluate_definition N flag_name bucket_key (rollout_flag p default on) ≡ default)
            ⊎ (evaluate_definition N flag_name bucket_key (rollout_flag q default on) ≡ on))
  unfolding evaluate_definition
  evaluate_definition-rollout_mono flag_name bucket_key p q default on up =
      let bucket = flag_bucket N flag_name bucket_key (of_nat 100) in
      let inside = bucket_of-bound (flag_name ++ 58 ∷ bucket_key) (of_nat 100) laws.hundred in
      (
        rw inside.1 refl,
        rw inside.0 refl,
        elim (Bool-cases (lt bucket p)) [
          | inl hit ↦ inr (rw (laws.lt_trans bucket p q hit up) refl)
          | inr miss ↦ inl (rw miss refl)
        ],
      )
