-- ===== src/PublicProduct/Candidates.antt =====
-- src/modules/public-product/services/slug.service.ts: what `generate` gives, and what writing a
-- slug leaves to do.
use radha_backend.Prelude.{
  ℕ, zero, suc, ◌+◌, ◌≡◌, ◌≢◌, ◌⊎◌, inl, inr, refl, subst, ap, Bool, true, false, some, List, [],
  ◌∷◌, ◌++◌, arith, ◌==◌, Bool-cases, ==_iff, ==_refl, All, select, find,
}
use radha_backend.Prelude.Table.{has_id, find_by_id}
use radha_backend.Prelude.Table.Laws.{
  Distinct, All-find, update_where-new, find→find_by_id, find-update_other, find-holds,
}
use radha_backend.Products.Ean.{Text}
use radha_backend.PublicProduct.{
  Product, product_key, numbered, compose_base, is_slug_taken, with_slug, write_slug, is_missing,
  walk, generate,
}

-- The candidates that `generate` tries.
abbrev pub candidates : ℕ → ℕ → Text → Text → List Text
candidates zero attempt base candidate = []
candidates (suc left) attempt base candidate =
    candidate ∷ candidates left (suc attempt) base (numbered base (attempt + 1))

-- Other products have all fifty candidates, and the name with the time too.
abbrev pub IsExhausted : (Text → Text) → (ℕ → Text) → Product → List Product → Type 0
IsExhausted fold stamp r rows =
    let base = compose_base fold r.name r.ean in
    All (λ slug. is_slug_taken slug r.id rows ≡ true) (candidates 50 1 base base)
    × (is_slug_taken (base ++ 45 ∷ stamp r.id) r.id rows ≡ true)

module _ (fold : Text → Text) (stamp : ℕ → Text) where
  walk-cases :
      (left attempt : ℕ) (base candidate : Text) (id : ℕ) (rows : List Product)
      → (is_slug_taken (walk fold stamp left attempt base candidate id rows) id rows ≡ false)
        ⊎ ((walk fold stamp left attempt base candidate id rows ≡ (base ++ 45 ∷ stamp id))
            × All
                (λ slug. is_slug_taken slug id rows ≡ true)
                (candidates left attempt base candidate))
  unfolding walk
  walk-cases zero attempt base candidate id rows = inr (refl, tt)
  walk-cases (suc left) attempt base candidate id rows =
      elim (Bool-cases (is_slug_taken candidate id rows)) [
        | inl taken ↦
            elim (walk-cases left (suc attempt) base (numbered base (attempt + 1)) id rows) [
              | inl free ↦ inl (rw taken free)
              | inr (last, all) ↦ inr (rw taken last, (taken, all))
            ]
        | inr free ↦ inl (rw free free)
      ]

  -- A slug that is generated and taken was the last resort.
  pub generate-IsExhausted :
      (r : Product) (rows : List Product)
      → is_slug_taken (generate fold stamp r.name r.ean r.id rows) r.id rows ≡ true
      → IsExhausted fold stamp r rows
  unfolding generate
  generate-IsExhausted r rows taken =
      let base = compose_base fold r.name r.ean in
      elim (walk-cases 50 1 base base r.id rows) [
        | inl free ↦ absurd (cc)
        | inr (last, all) ↦ (all, rw last at taken)
      ]

pub select-find :
    (q : Product → Bool) (rows : List Product) {r : Product} {rest : List Product}
    → select q rows ≡ (r ∷ rest)
    → find q rows ≡ some r
select-find q [] e = cc
select-find q (x ∷ xs) {r} {rest} e = elim (Bool-cases (q x)) [
  | inl hit ↦
      let first : ◌≡◌ {A = List Product} (x ∷ select q xs) (r ∷ rest) = rw hit at e in
      ground (arith, hit, first)
  | inr miss ↦ rw miss (select-find q xs (rw miss at e))
]

-- A product that gets its slug is the one product less that has none.
pub select-write_slug :
    (slug : Text) (rows : List Product) {r : Product} {rest : List Product}
    → Distinct product_key rows
    → select is_missing rows ≡ (r ∷ rest)
    → select is_missing (write_slug slug r.id rows) ≡ rest
select-write_slug slug [] keys e = cc
select-write_slug slug (x ∷ xs) {r} {rest} keys e = elim (Bool-cases (is_missing x)) [
  | inl hit ↦
      let first : ◌≡◌ {A = List Product} (x ∷ select is_missing xs) (r ∷ rest) = rw hit at e in
      let same : x ≡ r = ground (arith, first) in
      let later : select is_missing xs ≡ rest = ground (arith, first) in
      let others = update_where-new product_key x.id (with_slug slug) xs keys.0 in
      subst (λ id. select is_missing (write_slug slug id (x ∷ xs)) ≡ rest)
        (ap (λ (p : Product). p.id) same) (rw (==_refl x.id, others) later)
  | inr miss ↦
      let later : select is_missing xs ≡ (r ∷ rest) = rw miss at e in
      let away =
        All-find (λ s. product_key s ≢ x.id) is_missing xs keys.0
          (select-find is_missing xs later) in
      let other : (x.id == r.id) ≡ false = ground (arith, away, ==_iff x.id r.id) in
      rw (other, miss) (select-write_slug slug xs keys.1 later)
]

-- A product that needs no slug is left as it is.
abbrev pub Kept : List Product → List Product → Type 0
Kept rows rows' =
    (id : ℕ) (q : Product)
    → find_by_id product_key id rows ≡ some q
    → is_missing q ≡ false
    → find_by_id product_key id rows' ≡ some q

pub write_slug-Kept :
    (slug : Text) (rows : List Product) {r : Product}
    → Distinct product_key rows
    → find is_missing rows ≡ some r
    → Kept rows (write_slug slug r.id rows)
write_slug-Kept slug rows {r} keys e id q found done = elim (Bool-cases (r.id == id)) [
  | inl same ↦
      let own = find→find_by_id product_key is_missing rows keys e in
      let missing = find-holds is_missing rows e in
      let at_id : find_by_id product_key id rows ≡ some r =
        subst (λ n. find_by_id product_key n rows ≡ some r) ((==_iff r.id id).0 same) own in
      let one : q ≡ r = ground (arith, at_id, found) in
      let clash : true ≡ false = rw (one, missing) at done in cc
  | inr other ↦
      rw
        (find-update_other product_key is_missing (has_id product_key id) (with_slug slug) rows
          (λ s. refl) keys e other)
        found
]
