-- ===== src/PublicProduct/Backfill.antt =====
-- src/modules/public-product/services/slug.service.ts: the loops of `backfillAllMissing`.
use radha_backend.Prelude.{
  ℕ, zero, suc, ◌+◌, ◌≤◌, ◌<◌, ◌≡◌, inl, inr, refl, ap, ◌∙◌, Bool, true, false, Option, some, List,
  [], ◌∷◌, ◌++◌, arith, Bool-cases, ltb, length, length-append, select, find,
}
use radha_backend.Prelude.Table.{has_id}
use radha_backend.Prelude.Table.Laws.{Distinct, Distinct-update_where}
use radha_backend.Products.Ean.{Text}
use radha_backend.PublicProduct.{
  Product, product_key, is_slug_taken, with_slug, write_slug, is_missing, limit, is_empty, Written,
  written, duplicate_slug, generate, backfill_rows, after_batch, backfill_all_missing,
}
use radha_backend.PublicProduct.Candidates.{
  IsExhausted, generate-IsExhausted, select-find, select-write_slug, Kept, write_slug-Kept,
}

abbrev drop_rows : ℕ → List Product → List Product
drop_rows zero rows = rows
drop_rows (suc n) [] = []
drop_rows (suc n) (r ∷ rows) = drop_rows n rows

limit-drop_rows : (n : ℕ) (rows : List Product) → rows ≡ (limit n rows ++ drop_rows n rows)
limit-drop_rows zero rows = refl
limit-drop_rows (suc n) [] = refl
limit-drop_rows (suc n) (r ∷ rows) = ground (arith, limit-drop_rows n rows)

-- A batch that is not full is the last one.
short-drop_rows : (n : ℕ) (rows : List Product) → length (limit n rows) < n → drop_rows n rows ≡ []
short-drop_rows zero rows h = absurd (omega arith)
short-drop_rows (suc n) [] h = refl
short-drop_rows (suc n) (r ∷ rows) h = short-drop_rows n rows (omega arith)

empty-limit : (n : ℕ) (rows : List Product) → 1 ≤ n → is_empty (limit n rows) ≡ true → rows ≡ []
empty-limit zero rows h e = absurd (omega arith)
empty-limit (suc n) [] h e = refl
empty-limit (suc n) (r ∷ rows) h e = cc

nonempty-limit :
    (n : ℕ) (rows : List Product) → is_empty (limit n rows) ≡ false → 1 ≤ length (limit n rows)
nonempty-limit zero rows e = cc
nonempty-limit (suc n) [] e = cc
nonempty-limit (suc n) (r ∷ rows) e = omega arith

module _ (fold : Text → Text) (stamp : ℕ → Text) where
  -- The backfill stopped at the first product without a slug, all of whose candidates are taken.
  abbrev pub GaveUp : List Product → Type 0
  GaveUp rows = (r : Product) × (find is_missing rows ≡ some r) × IsExhausted fold stamp r rows

  abbrev BatchEnd : List Product → List Product → ℕ → List Product → Written ℕ → Type 0
  BatchEnd rs rest total rows' (written total') =
      (select is_missing rows' ≡ rest) × (total' ≡ total + length rs) × Distinct product_key rows'
  BatchEnd rs rest total rows' duplicate_slug = GaveUp rows'

  BatchEnd-cons :
      (r : Product) (rs rest : List Product) (total : ℕ) (done : List Product × Written ℕ)
      → BatchEnd rs rest (total + 1) done.0 done.1
      → BatchEnd (r ∷ rs) rest total done.0 done.1
  BatchEnd-cons r rs rest total (rows', written total') (left, count, keys) =
      (left, omega (arith, count), keys)
  BatchEnd-cons r rs rest total (rows', duplicate_slug) gave_up = gave_up

  backfill_rows-BatchEnd :
      (rs rest rows : List Product) (total : ℕ)
      → Distinct product_key rows
      → select is_missing rows ≡ (rs ++ rest)
      → let r = backfill_rows fold stamp rs rows total in
        Kept rows r.0 × BatchEnd rs rest total r.0 r.1
  unfolding backfill_rows
  backfill_rows-BatchEnd [] rest rows total keys e =
      (λ id q found done. found, (e, omega arith, keys))
  backfill_rows-BatchEnd (r ∷ rs) rest rows total keys e =
      let slug = generate fold stamp r.name r.ean r.id rows in
      let first = select-find is_missing rows e in
      elim (Bool-cases (is_slug_taken slug r.id rows)) [
        | inl taken ↦
            rw taken
              (λ id q found done. found, (r, first, generate-IsExhausted fold stamp r rows taken))
        | inr free ↦
            let keys' =
              Distinct-update_where product_key (has_id product_key r.id) (with_slug slug) rows
                (λ s. refl) keys in
            let others = backfill_rows fold stamp rs (write_slug slug r.id rows) (total + 1) in
            let (kept, end) =
              backfill_rows-BatchEnd rs rest (write_slug slug r.id rows) (total + 1) keys'
                (select-write_slug slug rows keys e) in
            rw free (
              λ id q found done.
                  kept id q (write_slug-Kept slug rows keys first id q found done) done,
              BatchEnd-cons r rs rest total others end,
            )
      ]

  abbrev pub Filled : ℕ → List Product → List Product → Written ℕ → Type 0
  Filled total rows rows' (written total') =
      (select is_missing rows' ≡ []) × (total' ≡ total + length (select is_missing rows))
  Filled total rows rows' duplicate_slug = GaveUp rows'

  -- The outcome of a backfill: every product that had a slug to get has one, and the count is theirs,
  -- or it gave up. In both cases the other products are left as they are.
  abbrev pub Backfilled : ℕ → List Product → List Product × Written ℕ → Type 0
  Backfilled total rows r = Kept rows r.0 × Filled total rows r.0 r.1

  Filled-more :
      (rows rows0 : List Product) (total total0 : ℕ) (rows' : List Product) (w : Written ℕ)
      → total + length (select is_missing rows) ≡ total0 + length (select is_missing rows0)
      → Filled total rows rows' w
      → Filled total0 rows0 rows' w
  Filled-more rows rows0 total total0 rows' (written m) same (none_left, count) =
      (none_left, count ∙ same)
  Filled-more rows rows0 total total0 rows' duplicate_slug same gave_up = gave_up

  after_batch-ends :
      (next : List Product → ℕ → Option (List Product × Written ℕ)) (short : Bool)
      (done : List Product × Written ℕ) (batch rest rows : List Product) (total : ℕ)
      → length (select is_missing rows) ≡ length batch + length rest
      → (short ≡ true → rest ≡ [])
      → Kept rows done.0
      → BatchEnd batch rest total done.0 done.1
      → ((rows' : List Product) (total' : ℕ)
          → Distinct product_key rows'
          → select is_missing rows' ≡ rest
          → (r : List Product × Written ℕ) × (next rows' total' ≡ some r)
            × Backfilled total' rows' r)
      → (r : List Product × Written ℕ) × (after_batch fold stamp next short done ≡ some r)
        × Backfilled total rows r
  unfolding after_batch
  after_batch-ends next short (rows', duplicate_slug) batch rest rows total size last kept end go =
      ((rows', duplicate_slug), refl, (kept, end))
  after_batch-ends next true (rows', written m) batch rest rows total size last kept end go =
      let none_left = last refl in
      let count : m ≡ total + length (select is_missing rows) =
        omega (arith, end.1, size, ap (λ (l : List Product). length l) none_left) in
      ((rows', written m), refl, (kept, (end.0 ∙ none_left, count)))
  after_batch-ends next false (rows', written m) batch rest rows total size last kept end go =
      let (r, ran, (kept', filled)) = go rows' m end.2 end.0 in
      let left : length (select is_missing rows') ≡ length rest =
        ap (λ (l : List Product). length l) end.0 in
      (
        r,
        ran,
        (
          λ id q found done. kept' id q (kept id q found done) done,
          Filled-more rows' rows m total r.0 r.1 (omega (arith, end.1, size, left)) filled,
        ),
      )

  -- With products of distinct keys, batches of at least one product, and more fuel than products
  -- that have no slug and belong to no tenant, the backfill ends. Either no such product is left and
  -- it counted all of them, or it gave up at one for which other products hold all fifty candidates
  -- and the name with the time. In both cases the products that had a slug or a tenant are as they
  -- were.
  pub backfill_all_missing-ends :
      (fuel batch_size : ℕ) (rows : List Product) (total : ℕ)
      → Distinct product_key rows
      → 1 ≤ batch_size
      → length (select is_missing rows) < fuel
      → (r : List Product × Written ℕ) × (backfill_all_missing fold stamp fuel batch_size rows total
          ≡ some r)
        × Backfilled total rows r
  unfolding backfill_all_missing
  backfill_all_missing-ends zero batch_size rows total keys size few = absurd (omega (arith, few))
  backfill_all_missing-ends (suc fuel) batch_size rows total keys size few =
      let missing = select is_missing rows in
      let batch = limit batch_size missing in
      let rest = drop_rows batch_size missing in
      let split = limit-drop_rows batch_size missing in
      let lengths : length missing ≡ length batch + length rest =
        ap (λ (l : List Product). length l) split ∙ length-append batch rest in
      elim (Bool-cases (is_empty batch)) [
        | inl none_left ↦
            let done = empty-limit batch_size missing size none_left in
            (
              (rows, written total),
              rw none_left refl,
              (
                λ id q found kept. found,
                (done, omega (arith, ap (λ (l : List Product). length l) done)),
              ),
            )
        | inr some_left ↦
            let one = nonempty-limit batch_size missing some_left in
            let (kept, end) = backfill_rows-BatchEnd batch rest rows total keys split in
            let (r, ran, outcome) =
              after_batch-ends (backfill_all_missing fold stamp fuel batch_size)
                (ltb (length batch) batch_size) (backfill_rows fold stamp batch rows total) batch
                rest rows total lengths
                (λ short. short-drop_rows batch_size missing (ground (arith, short))) kept end
                λ rows' total' keys' left.
                  backfill_all_missing-ends fuel batch_size rows' total' keys' size
                    (omega (arith, few, one, lengths, ap (λ (l : List Product). length l) left)) in
            (r, rw some_left ran, outcome)
      ]
