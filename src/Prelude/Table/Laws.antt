-- ===== src/Prelude/Table/Laws.antt =====
-- Reading a table after a patch, where the primary keys are distinct.
use Prim.Native.Nat.{ℕ}
use mathlib.Core.Path.{◌≡◌, refl, subst}
use mathlib.Core.Logic.{◌≢◌, inl, inr}
use mathlib.Core.Bool.{Bool, true, false}
use mathlib.Core.List.{List, [], ◌∷◌}
use mathlib.Core.Option.{Option, none, some}
use native.Mathlib.Omega.{arith}
use radha_backend.Prelude.Tests.{◌==◌, if◌then◌else◌, Bool-cases, Option-cases, ==_iff, ==_refl}
use radha_backend.Prelude.Lists.{find, All, select}
use radha_backend.Prelude.Failures.{ok}
use radha_backend.Prelude.Table.{update_where, has_id, find_by_id, update}

abbrev pub patch {ℓ} : {A : Type ℓ} → (A → Bool) → (A → A) → A → A
patch p f r = if p r then f r else r

abbrev pub map_option {ℓ κ} : {A : Type ℓ} {B : Type κ} → (A → B) → Option A → Option B
map_option f none = none
map_option f (some a) = some (f a)

module _ {ℓ} {A : Type ℓ} where
  -- A test that the patch leaves alone finds the patched row.
  pub find-update_where :
      (q p : A → Bool) (f : A → A) (rows : List A)
      → ((r : A) → q (f r) ≡ q r)
      → find q (update_where p f rows) ≡ map_option (patch p f) (find q rows)
  find-update_where q p f [] h = refl
  find-update_where q p f (r ∷ rows) h = ground (arith, h r, find-update_where q p f rows h)

  pub find-holds : (q : A → Bool) (rows : List A) {a : A} → find q rows ≡ some a → q a ≡ true
  find-holds q [] h = cc
  find-holds q (r ∷ rows) {a} h = ground (arith, find-holds q rows {a = a})

  -- A query that finds nothing is passed by no row.
  pub find-none : (q : A → Bool) (rows : List A) → find q rows ≡ none → All (λ r. q r ≡ false) rows
  find-none q [] h = tt
  find-none q (r ∷ rows) h = elim (Bool-cases (q r)) [
    | inl e ↦ absurd (ground (arith, h, e))
    | inr e ↦ (e, find-none q rows (rw e at h))
  ]

  -- A guarded update leaves no row that the guard lets through, where the patch fails the guard.
  pub find-update_none :
      (p : A → Bool) (f : A → A) (rows : List A)
      → ((r : A) → p (f r) ≡ false)
      → find p (update_where p f rows) ≡ none
  find-update_none p f [] h = refl
  find-update_none p f (r ∷ rows) h = elim (Bool-cases (p r)) [
    | inl e ↦ rw (e, h r) (find-update_none p f rows h)
    | inr e ↦ rw (e, e) (find-update_none p f rows h)
  ]

  pub All-find {κ} :
      (P : A → Type κ) (q : A → Bool) (rows : List A) {a : A}
      → All P rows
      → find q rows ≡ some a
      → P a
  All-find P q [] u h = cc
  All-find P q (r ∷ rows) {a} u h = elim (Bool-cases (q r)) [
    | inl e ↦ let same : r ≡ a = ground arith in subst P same u.0
    | inr e ↦ All-find P q rows u.1 (rw e at h)
  ]

  pub All-update_where {κ} :
      (P : A → Type κ) (p : A → Bool) (f : A → A) (rows : List A)
      → ((r : A) → P r → P (f r))
      → All P rows
      → All P (update_where p f rows)
  All-update_where P p f [] h u = tt
  All-update_where P p f (r ∷ rows) h u = elim (Bool-cases (p r)) [
    | inl e ↦ rw e (h r u.0, All-update_where P p f rows h u.1)
    | inr e ↦ rw e (u.0, All-update_where P p f rows h u.1)
  ]

  pub All-select {κ} :
      (P : A → Type κ) (q : A → Bool) (rows : List A) → All P rows → All P (select q rows)
  All-select P q [] u = tt
  All-select P q (r ∷ rows) u = elim (Bool-cases (q r)) [
    | inl e ↦ rw e (u.0, All-select P q rows u.1)
    | inr e ↦ rw e (All-select P q rows u.1)
  ]

  pub All-map {κ κ'} :
      (P : A → Type κ) (Q : A → Type κ') (rows : List A)
      → ((r : A) → P r → Q r)
      → All P rows
      → All Q rows
  All-map P Q [] h u = tt
  All-map P Q (r ∷ rows) h u = (h r u.0, All-map P Q rows h u.1)

  pub All-both {κ κ'} :
      (P : A → Type κ) (Q : A → Type κ') (rows : List A)
      → All P rows
      → All Q rows
      → All (λ r. P r × Q r) rows
  All-both P Q [] u v = tt
  All-both P Q (r ∷ rows) u v = ((u.0, v.0), All-both P Q rows u.1 v.1)

  -- The rows that a query selects pass its test.
  pub select-holds : (q : A → Bool) (rows : List A) → All (λ r. q r ≡ true) (select q rows)
  select-holds q [] = tt
  select-holds q (r ∷ rows) = elim (Bool-cases (q r)) [
    | inl e ↦ rw e (e, select-holds q rows)
    | inr e ↦ rw e (select-holds q rows)
  ]

module _ {ℓ} {A : Type ℓ} (key : A → ℕ) where
  -- The primary keys of a table are distinct.
  abbrev pub Distinct : List A → Type 0
  Distinct [] = Unit
  Distinct (r ∷ rows) = All (λ s. key s ≢ key r) rows × Distinct rows

  -- No row has the key.
  abbrev pub IsNew : ℕ → List A → Type 0
  IsNew id rows = All (λ s. key s ≢ id) rows

  pub Distinct-update_where :
      (p : A → Bool) (f : A → A) (rows : List A)
      → ((r : A) → key (f r) ≡ key r)
      → Distinct rows
      → Distinct (update_where p f rows)
  Distinct-update_where p f [] h u = tt
  Distinct-update_where p f (r ∷ rows) h u = elim (Bool-cases (p r)) [
    | inl e ↦
        rw (e, h r)
          (
            All-update_where (λ s. key s ≢ key r) p f rows (λ s ne. rw (h s) ne) u.0,
            Distinct-update_where p f rows h u.1,
          )
    | inr e ↦ rw e (
      All-update_where (λ s. key s ≢ key r) p f rows (λ s ne. rw (h s) ne) u.0,
      Distinct-update_where p f rows h u.1,
    )
  ]

  -- A row that some query found is the row with its key.
  pub find→find_by_id :
      (q : A → Bool) (rows : List A) {a : A}
      → Distinct rows
      → find q rows ≡ some a
      → find_by_id key (key a) rows ≡ some a
  find→find_by_id q [] u h = cc
  find→find_by_id q (r ∷ rows) {a} u h = elim (Bool-cases (q r)) [
    | inl e ↦ let same : r ≡ a = ground arith in rw same (rw (==_refl (key a)) refl)
    | inr e ↦
        let later : find q rows ≡ some a = rw e at h in
        let other = All-find (λ s. key s ≢ key r) q rows u.0 later in
        ground (arith, find→find_by_id q rows u.1 later)
  ]

  -- Rows found by two queries are the same if their keys are.
  pub find_unique :
      (q q' : A → Bool) (rows : List A) {a b : A}
      → Distinct rows
      → find q rows ≡ some a
      → find q' rows ≡ some b
      → key a ≡ key b
      → a ≡ b
  find_unique q q' rows {a} {b} u h k e =
      let ea = find→find_by_id q rows u h in
      let eb = find→find_by_id q' rows u k in
      let ea' : find_by_id key (key b) rows ≡ some a =
        subst (λ n. find_by_id key n rows ≡ some a) e ea in
      cc

  -- A patch of one row leaves what is found by a test that the row fails.
  pub find-update_other :
      (q q' : A → Bool) (f : A → A) (rows : List A) {a : A}
      → ((r : A) → q' (f r) ≡ q' r)
      → Distinct rows
      → find q rows ≡ some a
      → q' a ≡ false
      → find q' (update_where (has_id key (key a)) f rows) ≡ find q' rows
  find-update_other q q' f rows {a} keep u e away = elim (Option-cases (find q' rows)) [
    | inl missing ↦ rw (find-update_where q' (has_id key (key a)) f rows keep, missing)
    | inr (b, found) ↦ elim (Bool-cases (key b == key a)) [
      | inr other ↦ rw (find-update_where q' (has_id key (key a)) f rows keep, found) (rw other)
      | inl same ↦
          let row = find_unique q' q rows u found e ((==_iff (key b) (key a)).0 same) in
          let holds = find-holds q' rows found in absurd (ground (arith, row, holds, away))
    ]
  ]

  -- An update of a row that is there returns the patched row.
  pub update-ok :
      (id : ℕ) (f : A → A) (rows : List A) {a : A}
      → ((r : A) → key (f r) ≡ key r)
      → find_by_id key id rows ≡ some a
      → update key id f rows ≡ ok (update_where (has_id key id) f rows, f a)
  unfolding update
  update-ok id f rows {a} h e =
      let holds = find-holds (has_id key id) rows e in
      let found = find-update_where (has_id key id) (has_id key id) f rows (λ r. rw (h r)) in
      rw (found, e, holds) refl

  -- What an update that succeeds did.
  pub update-inv :
      (id : ℕ) (f : A → A) (rows : List A) {rows' : List A} {a : A}
      → ((r : A) → key (f r) ≡ key r)
      → update key id f rows ≡ ok (rows', a)
      → (rows' ≡ update_where (has_id key id) f rows)
        × ((b : A) × (find_by_id key id rows ≡ some b) × (a ≡ f b))
  unfolding update
  update-inv id f rows {rows'} {a} h e = elim (Option-cases (find_by_id key id rows)) [
    | inl missing ↦
        let found = find-update_where (has_id key id) (has_id key id) f rows (λ r. rw (h r)) in
        absurd (ground (arith, found))
    | inr (b, there) ↦
        let done = update-ok id f rows {a = b} h there in
        (ground (arith, done), (b, there, ground (arith, done)))
  ]

  pub update_where-new :
      (id : ℕ) (f : A → A) (rows : List A)
      → IsNew id rows
      → update_where (has_id key id) f rows ≡ rows
  update_where-new id f [] u = refl
  update_where-new id f (r ∷ rows) u =
      ground (arith, u.0, ==_iff (key r) id, update_where-new id f rows u.1)

  IsNew-select : (q : A → Bool) (id : ℕ) (rows : List A) → IsNew id rows → IsNew id (select q rows)
  IsNew-select q id rows u = All-select (λ s. key s ≢ id) q rows u

  pub Distinct-select : (q : A → Bool) (rows : List A) → Distinct rows → Distinct (select q rows)
  Distinct-select q [] u = tt
  Distinct-select q (r ∷ rows) u = elim (Bool-cases (q r)) [
    | inl e ↦ rw e (IsNew-select q (key r) rows u.0, Distinct-select q rows u.1)
    | inr e ↦ rw e (Distinct-select q rows u.1)
  ]

  -- Every row is the one that its key finds.
  pub All-found :
      (rows : List A) → Distinct rows → All (λ r. find_by_id key (key r) rows ≡ some r) rows
  All-found [] u = tt
  All-found (r ∷ rows) u = (
    rw (==_refl (key r)) refl,
    All-map (λ s. (key s ≢ key r) × (find_by_id key (key s) rows ≡ some s)) _ rows
        (λ s h. ground (arith, h.0, h.1, ==_iff (key r) (key s)))
        (All-both (λ s. key s ≢ key r) _ rows u.0 (All-found rows u.1)),
  )

  -- A patch by key has to be right for the one row that has the key.
  pub All-update_id {κ} :
      (P : A → Type κ) (id : ℕ) (f : A → A) (rows : List A) {a : A}
      → Distinct rows
      → find_by_id key id rows ≡ some a
      → P (f a)
      → All P rows
      → All P (update_where (has_id key id) f rows)
  All-update_id P id f [] u e h v = tt
  All-update_id P id f (r ∷ rows) {a} u e h v = elim (Bool-cases (key r == id)) [
    | inl same ↦
        let first : r ≡ a = ground arith in
        let others : IsNew id rows = rw (← (==_iff (key r) id).0 same) u.0 in
        rw (same, update_where-new id f rows others) (rw first h, v.1)
    | inr other ↦ rw other (v.0, All-update_id P id f rows {a = a} u.1 (rw other at e) h v.1)
  ]
