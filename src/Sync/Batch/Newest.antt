-- ===== src/Sync/Batch/Newest.antt =====
-- src/modules/sync/services/sync.service.ts: the newest of the timestamps for an id, and that it does
-- not depend on their order.
use mathlib.Core.List.{Permᴰ}
use radha_backend.Prelude.{
  ℕ, ◌≡◌, refl, ap, ◌∙◌, Bool, true, false, Option, none, some, List, [], ◌∷◌, ◌==◌, inl, inr,
  Bool-cases, select, All, if◌then◌else◌,
}
use radha_backend.Sync.Lamport.{
  Timestamp, Comparison, older, same, newer, compare_lamport, is_newer, is_older,
}
use radha_backend.Sync.Lamport.Order.{
  flip, compare_lamport-flip, compare_lamport-same, compare_lamport_trans,
}
use radha_backend.Sync.Batch.{SyncItem, item_id}

abbrev pub item_key : SyncItem → ℕ
item_key i = i.idempotency_key

abbrev pub is_id : Option ℕ → ℕ → Bool
is_id none id = false
is_id (some j) id = j == id

-- The item is for the id.
abbrev pub names_id : ℕ → SyncItem → Bool
names_id id i = is_id (item_id i) id

-- The timestamp of the last item for the id, or `m` where there is none.
abbrev pub last_write : ℕ → Option Timestamp → List SyncItem → Option Timestamp
last_write id m [] = m
last_write id m (i ∷ is) = last_write id (if names_id id i then i.lamport else m) is

-- The newer of two timestamps, and the newest of the items for the id.
abbrev pub later : Option Timestamp → Option Timestamp → Option Timestamp
later m a = if is_older (compare_lamport a m) then m else a

abbrev pub newest : ℕ → Option Timestamp → List SyncItem → Option Timestamp
newest id m [] = m
newest id m (i ∷ is) = newest id (if names_id id i then later m i.lamport else m) is

-- Not newer.
abbrev pub IsUpTo : Option Timestamp → Option Timestamp → Type 0
IsUpTo a b = is_newer (compare_lamport a b) ≡ false

not-both : (c : Comparison) → is_older c ≡ true → is_newer c ≡ false
not-both older h = refl
not-both same h = cc
not-both newer h = cc

flip-older : (c : Comparison) → is_older c ≡ false → is_newer (flip c) ≡ false
flip-older older h = cc
flip-older same h = refl
flip-older newer h = refl

compare-cases : (c : Comparison) → is_newer c ≡ false → is_newer (flip c) ≡ false → c ≡ same
compare-cases older h k = cc
compare-cases same h k = refl
compare-cases newer h k = cc

flip_refl : (c : Comparison) → c ≡ flip c → is_newer c ≡ false
flip_refl older h = cc
flip_refl same h = refl
flip_refl newer h = cc

IsUpTo-refl : (a : Option Timestamp) → IsUpTo a a
IsUpTo-refl a = flip_refl (compare_lamport a a) (compare_lamport-flip a a)

IsUpTo-antisym : (a b : Option Timestamp) → IsUpTo a b → IsUpTo b a → a ≡ b
IsUpTo-antisym a b h k =
    compare_lamport-same a b
      (compare-cases (compare_lamport a b) h (rw (compare_lamport-flip a b) at k))

later-left : (m a : Option Timestamp) → IsUpTo m (later m a)
later-left m a = elim (Bool-cases (is_older (compare_lamport a m))) [
  | inl e ↦ rw e (IsUpTo-refl m)
  | inr e ↦ rw e (ap is_newer (compare_lamport-flip a m) ∙ flip-older (compare_lamport a m) e)
]

later-right : (m a : Option Timestamp) → IsUpTo a (later m a)
later-right m a = elim (Bool-cases (is_older (compare_lamport a m))) [
  | inl e ↦ rw e (not-both (compare_lamport a m) e)
  | inr e ↦ rw e (IsUpTo-refl a)
]

later-least : (m a z : Option Timestamp) → IsUpTo m z → IsUpTo a z → IsUpTo (later m a) z
later-least m a z h k = elim (Bool-cases (is_older (compare_lamport a m))) [
  | inl e ↦ rw e h
  | inr e ↦ rw e k
]

later-swap_le : (m a b : Option Timestamp) → IsUpTo (later (later m a) b) (later (later m b) a)
later-swap_le m a b =
    let top = later (later m b) a in
    let below = later-left (later m b) a in
    later-least (later m a) b top
      (later-least m a top (compare_lamport_trans m (later m b) top (later-left m b) below)
        (later-right (later m b) a))
      (compare_lamport_trans b (later m b) top (later-right m b) below)

later-swap : (m a b : Option Timestamp) → later (later m a) b ≡ later (later m b) a
later-swap m a b = IsUpTo-antisym _ _ (later-swap_le m a b) (later-swap_le m b a)

-- One item more, for the newest of an id.
abbrev step : ℕ → Option Timestamp → SyncItem → Option Timestamp
step id m i = if names_id id i then later m i.lamport else m

step-swap :
    (id : ℕ) (m : Option Timestamp) (i j : SyncItem)
    → step id (step id m i) j ≡ step id (step id m j) i
step-swap id m i j = elim (Bool-cases (names_id id i)) [
  | inl e ↦ elim (Bool-cases (names_id id j)) [
    | inl d ↦ rw (e, d) (later-swap m i.lamport j.lamport)
    | inr d ↦ rw (e, d) refl
  ]
  | inr e ↦ elim (Bool-cases (names_id id j)) [ inl d ↦ rw (e, d) refl | inr d ↦ rw (e, d) refl ]
]

pub newest-Permᴰ :
    (id : ℕ) (m : Option Timestamp) {xs ys : List SyncItem}
    → Permᴰ xs ys
    → newest id m xs ≡ newest id m ys
newest-Permᴰ id m Permᴰ.nil = refl
newest-Permᴰ id m (Permᴰ.cons {a} {b} {l₁} {l₂} e p) =
    ap (λ i. newest id (step id m i) l₁) e ∙ newest-Permᴰ id (step id m b) p
newest-Permᴰ id m (Permᴰ.swap {a} {b} {a'} {b'} {l} e f) =
    ap (λ n. newest id n l) (step-swap id m a b)
    ∙ ap (λ i. newest id (step id (step id m i) a) l) f
    ∙ ap (λ i. newest id (step id (step id m a') i) l) e
newest-Permᴰ id m (Permᴰ.trans p q) = newest-Permᴰ id m p ∙ newest-Permᴰ id m q

module _ (id : ℕ) where
  pub newest-from : (m : Option Timestamp) (items : List SyncItem) → IsUpTo m (newest id m items)
  newest-from m [] = IsUpTo-refl m
  newest-from m (i ∷ is) = elim (Bool-cases (names_id id i)) [
    | inl e ↦ rw e (
        compare_lamport_trans m (later m i.lamport) _ (later-left m i.lamport)
          (newest-from (later m i.lamport) is))
    | inr e ↦ rw e (newest-from m is)
  ]

  pub newest-greatest :
      (m : Option Timestamp) (items : List SyncItem)
      → All (λ i. IsUpTo i.lamport (newest id m items)) (select (names_id id) items)
  newest-greatest m [] = tt
  newest-greatest m (i ∷ is) = elim (Bool-cases (names_id id i)) [
    | inl e ↦ rw e (
      compare_lamport_trans i.lamport (later m i.lamport) _ (later-right m i.lamport)
          (newest-from (later m i.lamport) is),
      newest-greatest (later m i.lamport) is,
    )
    | inr e ↦ rw e (newest-greatest m is)
  ]
