-- ===== src/Sync/Batch/Winners.antt =====
-- src/modules/sync/services/sync.service.ts: of the items for one id, the newest is the last to be
-- applied, in whatever order they were sent.
use mathlib.Core.List.{Permᴰ}
use radha_backend.Prelude.{
  ℕ, suc, ◌≡◌, ◌≢◌, refl, sym, ap, subst, ◌∙◌, true, false, Option, none, some, List, [], ◌∷◌, ◌==◌,
  arith, inl, inr, Bool-cases, ==_iff, any, select, All, if◌then◌else◌,
}
use radha_backend.Prelude.Table.Laws.{Distinct, All-both, All-map}
use radha_backend.Sync.Lamport.{compare_lamport, is_older}
use radha_backend.Sync.Batch.Newest.{
  item_key, is_id, names_id, last_write, later, newest, IsUpTo, newest-Permᴰ, newest-greatest,
}
use radha_backend.Sync.Batch.{
  SyncResource, SyncItem, Watermarks, mark_of, item_id, is_stale, marked, process_items,
  process_batch,
}

-- No item repeats a key that was seen.
abbrev Unseen : List ℕ → List SyncItem → Type 0
Unseen seen = All (λ i. any (λ k. k == i.idempotency_key) seen ≡ false)

Unseen-cons :
    (k : ℕ) (seen : List ℕ) (items : List SyncItem)
    → Unseen seen items
    → All (λ i. item_key i ≢ k) items
    → Unseen (k ∷ seen) items
Unseen-cons k seen items u new =
    All-map (λ i. (any (λ j. j == i.idempotency_key) seen ≡ false) × (item_key i ≢ k))
      (λ i. any (λ j. j == i.idempotency_key) (k ∷ seen) ≡ false) items
      (λ i h. ground (arith, h.0, h.1, ==_iff k i.idempotency_key))
      (All-both (λ i. any (λ j. j == i.idempotency_key) seen ≡ false) _ items u new)

Unseen-nil : (items : List SyncItem) → Unseen [] items
Unseen-nil [] = tt
Unseen-nil (i ∷ is) = (refl, Unseen-nil is)

mark_of-marked :
    (id : ℕ) (i : SyncItem) (o : Option ℕ) (marks : Watermarks)
    → mark_of id (marked i o marks) ≡ (if is_id o id then i.lamport else mark_of id marks)
mark_of-marked id i none marks = refl
mark_of-marked id i (some j) marks = refl

-- What the item leaves of the newest timestamp of the id, where it is applied and where it is stale.
fresh-step :
    (id : ℕ) (i : SyncItem) (o : Option ℕ) (marks : Watermarks)
    → is_stale i o marks ≡ false
    → (if is_id o id then later (mark_of id marks) i.lamport else mark_of id marks)
      ≡ (if is_id o id then i.lamport else mark_of id marks)
fresh-step id i none marks h = refl
fresh-step id i (some j) marks h = elim (Bool-cases (j == id)) [
  | inr e ↦ rw e refl
  | inl e ↦
      let this = (==_iff j id).0 e in
      let fresh : is_older (compare_lamport i.lamport (mark_of id marks)) ≡ false =
        subst (λ n. is_older (compare_lamport i.lamport (mark_of n marks)) ≡ false) this h in
      rw (e, fresh) refl
]

stale-step :
    (id : ℕ) (i : SyncItem) (o : Option ℕ) (marks : Watermarks)
    → is_stale i o marks ≡ true
    → (if is_id o id then later (mark_of id marks) i.lamport else mark_of id marks)
      ≡ mark_of id marks
stale-step id i none marks h = refl
stale-step id i (some j) marks h = elim (Bool-cases (j == id)) [
  | inr e ↦ rw e refl
  | inl e ↦
      let this = (==_iff j id).0 e in
      let stale : is_older (compare_lamport i.lamport (mark_of id marks)) ≡ true =
        subst (λ n. is_older (compare_lamport i.lamport (mark_of n marks)) ≡ true) this h in
      rw (e, stale) refl
]

module _ (resource : SyncResource) (id : ℕ) where
  process_items-newest :
      (index : ℕ) (seen : List ℕ) (marks : Watermarks) (items : List SyncItem)
      → Unseen seen items
      → Distinct item_key items
      → last_write id (mark_of id marks) (process_items resource index seen marks items).applied
        ≡ newest id (mark_of id marks) items
  unfolding process_items
  process_items-newest index seen marks [] u d = refl
  process_items-newest index seen marks (i ∷ is) u d =
      let keys = i.idempotency_key ∷ seen in
      let unseen = Unseen-cons i.idempotency_key seen is u.1 d.0 in
      elim (Bool-cases (is_stale i (item_id i) marks)) [
        | inl stale ↦
            rw (u.0, stale)
              (process_items-newest (suc index) keys marks is unseen d.1
                ∙ ap (λ m. newest id m is) (sym (stale-step id i (item_id i) marks stale)))
        | inr fresh ↦
            let rest =
              process_items-newest (suc index) keys (marked i (item_id i) marks) is unseen d.1 in
            let mark = mark_of-marked id i (item_id i) marks in
            rw (u.0, fresh)
              (ap
                  (λ m.
                    last_write id m
                      (process_items resource (suc index) keys (marked i (item_id i) marks)
                        is).applied)
                  (sym mark)
                ∙ rest
                ∙ ap (λ m. newest id m is) (mark ∙ sym (fresh-step id i (item_id i) marks fresh)))
      ]

  -- In a batch whose items have distinct keys, the last item for an id that is applied has a timestamp
  -- that none of the batch's items for the id is newer than.
  pub process_batch-newest_wins :
      (items : List SyncItem)
      → Distinct item_key items
      → All
          (λ i. IsUpTo i.lamport (last_write id none (process_batch resource items).applied))
          (select (names_id id) items)
  unfolding process_batch
  process_batch-newest_wins items d =
      rw (process_items-newest 0 [] [] items (Unseen-nil items) d) (newest-greatest id none items)

  -- Two batches of the same items with distinct keys, in any two orders, apply an item with the same
  -- timestamp last for each id.
  pub process_batch-Converges :
      (items items' : List SyncItem)
      → Distinct item_key items
      → Distinct item_key items'
      → Permᴰ items items'
      → last_write id none (process_batch resource items).applied
        ≡ last_write id none (process_batch resource items').applied
  unfolding process_batch
  process_batch-Converges items items' d d' p =
      process_items-newest 0 [] [] items (Unseen-nil items) d
      ∙ newest-Permᴰ id none p
      ∙ sym (process_items-newest 0 [] [] items' (Unseen-nil items') d')
