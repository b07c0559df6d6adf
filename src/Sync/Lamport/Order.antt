-- ===== src/Sync/Lamport/Order.antt =====
-- src/modules/sync/utils/lamport-clock.util.ts: the comparison is a total order.
use radha_backend.Prelude.{ℕ, ◌≡◌, refl, ap, false, Option, none, some, List, [], ◌∷◌, arith}
use radha_backend.Sync.Lamport.{
  Timestamp, Comparison, older, same, newer, compare_text, compare_lamport, is_newer,
}

abbrev pub flip : Comparison → Comparison
flip older = newer
flip same = same
flip newer = older

compare_text-flip : (s t : List ℕ) → compare_text t s ≡ flip (compare_text s t)
unfolding compare_text
compare_text-flip [] [] = refl
compare_text-flip [] (b ∷ t) = refl
compare_text-flip (a ∷ s) [] = refl
compare_text-flip (a ∷ s) (b ∷ t) = ground (arith, compare_text-flip s t)

compare_text-same : (s t : List ℕ) → compare_text s t ≡ same → s ≡ t
unfolding compare_text
compare_text-same [] [] h = refl
compare_text-same [] (b ∷ t) h = cc
compare_text-same (a ∷ s) [] h = cc
compare_text-same (a ∷ s) (b ∷ t) h = ground (arith, h, compare_text-same s t)

compare_text_trans :
    (s t u : List ℕ)
    → is_newer (compare_text s t) ≡ false
    → is_newer (compare_text t u) ≡ false
    → is_newer (compare_text s u) ≡ false
unfolding compare_text
compare_text_trans [] t [] h k = refl
compare_text_trans [] t (c ∷ u) h k = refl
compare_text_trans (a ∷ s) [] u h k = cc
compare_text_trans (a ∷ s) (b ∷ t) [] h k = cc
compare_text_trans (a ∷ s) (b ∷ t) (c ∷ u) h k = ground (arith, h, k, compare_text_trans s t u)

timestamp_eq : (a b : Timestamp) → a.counter ≡ b.counter → a.node_id ≡ b.node_id → a ≡ b
timestamp_eq a b e h i = record { counter = e i; node_id = h i }

pub compare_lamport-flip :
    (a b : Option Timestamp) → compare_lamport b a ≡ flip (compare_lamport a b)
unfolding compare_lamport
compare_lamport-flip none none = refl
compare_lamport-flip none (some b) = refl
compare_lamport-flip (some a) none = refl
compare_lamport-flip (some a) (some b) = ground (arith, compare_text-flip a.node_id b.node_id)

pub compare_lamport-same : (a b : Option Timestamp) → compare_lamport a b ≡ same → a ≡ b
unfolding compare_lamport
compare_lamport-same none none h = refl
compare_lamport-same none (some b) h = cc
compare_lamport-same (some a) none h = cc
compare_lamport-same (some a) (some b) h =
    let node = compare_text-same a.node_id b.node_id in
    let counters : a.counter ≡ b.counter = ground (arith, h) in
    let nodes : a.node_id ≡ b.node_id = ground (arith, h, node) in
    ap (λ t. some t) (timestamp_eq a b counters nodes)

pub compare_lamport_trans :
    (a b c : Option Timestamp)
    → is_newer (compare_lamport a b) ≡ false
    → is_newer (compare_lamport b c) ≡ false
    → is_newer (compare_lamport a c) ≡ false
unfolding compare_lamport
compare_lamport_trans none b none h k = refl
compare_lamport_trans none b (some c) h k = refl
compare_lamport_trans (some a) none c h k = cc
compare_lamport_trans (some a) (some b) none h k = cc
compare_lamport_trans (some a) (some b) (some c) h k =
    ground (arith, h, k, compare_text_trans a.node_id b.node_id c.node_id)
