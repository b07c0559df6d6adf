-- ===== src/FeatureFlags.antt =====
-- src/modules/feature-flags: utils/fnv1a.util.ts, and the evaluation of a flag in
-- providers/local-static.provider.ts and types/feature-flag.types.ts. A key to be hashed is the list
-- of its character codes. Percentages and weights are JavaScript's numbers, which are a parameter:
-- their type and the operations that the evaluation uses.
pub mod Buckets
mod Tests
use Prim.Native.Nat.{bit_xor}
use radha_backend.Prelude.{
  ℕ, zero, suc, ◌+◌, ◌*◌, ◌%◌, ◌^◌, String, Bool, true, false, Option, none, some, List, [], ◌∷◌,
  ◌++◌, ◌||◌, if◌then◌else◌, or_else,
}

-- The numbers of JavaScript that are not NaN, which the flags' schema refuses, with `+`, `<`, `<=`
-- and `%`.
pub record Numbers : Type 1 where
  pub Number : Type 0
  pub of_nat : ℕ → Number
  pub add : Number → Number → Number
  pub lt : Number → Number → Bool
  pub le : Number → Number → Bool
  pub rem : Number → Number → Number

-- `FNV_OFFSET_BASIS` and `FNV_PRIME`
abbrev pub fnv_offset_basis : ℕ
fnv_offset_basis = 2166136261

abbrev pub fnv_prime : ℕ
fnv_prime = 16777619

-- The loop of `fnv1a32`: `Math.imul` keeps the lower 32 bits, and `>>> 0` reads them as unsigned.
unfoldable pub fnv1a_loop : ℕ → List ℕ → ℕ
fnv1a_loop hash [] = hash
fnv1a_loop hash (c ∷ cs) = fnv1a_loop ((bit_xor hash c * fnv_prime) % 2 ^ 32) cs

-- `fnv1a32`
unfoldable pub fnv1a32 : List ℕ → ℕ
fnv1a32 input = fnv1a_loop fnv_offset_basis input

-- `FlagDefinition`
pub data FlagDefinition (Number : Type 0) : Type 0 where
  boolean_flag : (default : Bool) → FlagDefinition Number
  rollout_flag : (percentage : Number) (default on : String) → FlagDefinition Number
  multivariate_flag :
      (variants : List String) (weights : List Number) (default : Option String)
      → FlagDefinition Number

abbrev pub first_variant : List String → String
first_variant [] = "off"
first_variant (v ∷ vs) = v

abbrev pub no_variants : List String → Bool
no_variants [] = true
no_variants (v ∷ vs) = false

-- `variants[variants.length - 1]`
abbrev pub last_variant : List String → Option String
last_variant [] = none
last_variant (v ∷ []) = some v
last_variant (v ∷ w ∷ vs) = last_variant (w ∷ vs)

module _ {Number : Type 0} where
  -- `defaultVariantFor`, of a definition that is there
  unfoldable pub default_variant_for : FlagDefinition Number → String
  default_variant_for (boolean_flag default) = if default then "on" else "off"
  default_variant_for (rollout_flag percentage default on) = default
  default_variant_for (multivariate_flag variants weights default) =
      or_else default (first_variant variants)

  abbrev pub picked : FlagDefinition Number → Option String → Option String → String
  picked def (some v) last = v
  picked def none (some v) = v
  picked def none none = default_variant_for def

module _ (N : Numbers) where
  open N use {Number, of_nat, add, lt, le, rem}

  -- `bucketOf`
  unfoldable pub bucket_of : List ℕ → Number → Number
  bucket_of input n = if le n (of_nat 0) then of_nat 0 else rem (of_nat (fnv1a32 input)) n

  -- `weights.reduce((s, w) => s + w, 0)`, from the sum `s` of the weights before
  abbrev pub total_weight : Number → List Number → Number
  total_weight s [] = s
  total_weight s (w ∷ ws) = total_weight (add s w) ws

  -- `weights[i] ?? 0`, and the weights that follow
  abbrev pub head_weight : List Number → Number
  head_weight [] = of_nat 0
  head_weight (w ∷ ws) = w

  abbrev pub tail_weights : List Number → List Number
  tail_weights [] = []
  tail_weights (w ∷ ws) = ws

  -- The loop over the variants; none where it falls through.
  unfoldable pub pick_variant : Number → Number → List String → List Number → Option String
  pick_variant bucket cursor [] weights = none
  pick_variant bucket cursor (v ∷ vs) weights =
      let cursor' = add cursor (head_weight weights) in
      let rest = pick_variant bucket cursor' vs (tail_weights weights) in
      if lt bucket cursor' then some v else rest

  abbrev pub multivariate :
      List ℕ → List String → List Number → FlagDefinition Number → Number → String
  multivariate composite variants weights def total =
      if le total (of_nat 0) || no_variants variants
      then default_variant_for def
      else picked def (pick_variant (bucket_of composite total) (of_nat 0) variants weights)
          (last_variant variants)

  -- `evaluateDefinition`: the flag's name and the bucket key joined by a colon are hashed
  unfoldable pub evaluate_definition : List ℕ → List ℕ → FlagDefinition Number → String
  evaluate_definition flag_name bucket_key (boolean_flag default) = if default then "on" else "off"
  evaluate_definition flag_name bucket_key (rollout_flag percentage default on) =
      if lt (bucket_of (flag_name ++ 58 ∷ bucket_key) (of_nat 100)) percentage then on else default
  evaluate_definition flag_name bucket_key (multivariate_flag variants weights default) =
      multivariate (flag_name ++ 58 ∷ bucket_key) variants weights
        (multivariate_flag variants weights default) (total_weight (of_nat 0) weights)
