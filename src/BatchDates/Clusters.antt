-- ===== src/BatchDates/Clusters.antt =====
-- src/modules/batch-dates/consensus.ts: the clusters of the observations.
use mathlib.Core.List.{Permᴰ}
use mathlib.Core.List.Permᴰ
use radha_backend.Prelude.{
  ◌≤◌, ◌≡◌, refl, subst, sym, ap, Bool, true, false, Option, none, some, List, [], ◌∷◌, ◌++◌, arith,
  inl, inr, Bool-cases, leb, leb→le, All,
}
use radha_backend.Prelude.Table.Laws.{All-map}
use radha_backend.BatchDates.{
  Observation, Cluster, insert_observation, sort_observations, is_close, grow, cluster_sorted,
  cluster_by_expiry,
}

-- All the observations of the clusters.
abbrev pub join : List Cluster → List Observation
join [] = []
join (c ∷ cs) = c ++ join cs

-- By expiry date, the earliest first.
abbrev pub IsAscending : List Observation → Type 0
IsAscending [] = Unit
IsAscending (o ∷ os) = All (λ p. o.expiry_date ≤ p.expiry_date) os × IsAscending os

-- Each observation is at most a day from the one before.
abbrev pub IsChain : Cluster → Type 0
IsChain [] = Unit
IsChain (o ∷ []) = Unit
IsChain (o ∷ p ∷ ps) = (is_close o p ≡ true) × IsChain (p ∷ ps)

abbrev pub first_of : Cluster → Option Observation
first_of [] = none
first_of (o ∷ os) = some o

abbrev pub last_of : Cluster → Option Observation
last_of [] = none
last_of (o ∷ []) = some o
last_of (o ∷ p ∷ ps) = last_of (p ∷ ps)

abbrev pub close_ends : Option Observation → Option Observation → Bool
close_ends none p = true
close_ends (some o) none = true
close_ends (some o) (some p) = is_close o p

-- Between one cluster and the next there is more than a day.
abbrev pub IsSeparated : List Cluster → Type 0
IsSeparated [] = Unit
IsSeparated (c ∷ []) = Unit
IsSeparated (c ∷ d ∷ ds) = (close_ends (last_of c) (first_of d) ≡ false) × IsSeparated (d ∷ ds)

pub record IsPartition (os : List Observation) (cs : List Cluster) : Type 0 where
  pub same_observations : Permᴰ os (join cs)
  pub ascending : IsAscending (join cs)
  pub chains : All IsChain cs
  pub separated : IsSeparated cs

insert_observation-Permᴰ :
    (o : Observation) (os : List Observation) → Permᴰ (o ∷ os) (insert_observation o os)
unfolding insert_observation
insert_observation-Permᴰ o [] = Permᴰ.cons refl Permᴰ.nil
insert_observation-Permᴰ o (p ∷ ps) = elim (Bool-cases (leb o.expiry_date p.expiry_date)) [
  | inl e ↦ rw e (Permᴰ.refl (o ∷ p ∷ ps))
  | inr e ↦
      rw e (Permᴰ.trans (Permᴰ.swap refl refl) (Permᴰ.cons refl (insert_observation-Permᴰ o ps)))
]

sort_observations-Permᴰ : (os : List Observation) → Permᴰ os (sort_observations os)
unfolding sort_observations
sort_observations-Permᴰ [] = Permᴰ.nil
sort_observations-Permᴰ (o ∷ os) =
    Permᴰ.trans (Permᴰ.cons refl (sort_observations-Permᴰ os))
      (insert_observation-Permᴰ o (sort_observations os))

All-insert_observation :
    (P : Observation → Type 0) (o : Observation) (os : List Observation)
    → P o
    → All P os
    → All P (insert_observation o os)
unfolding insert_observation
All-insert_observation P o [] h u = (h, tt)
All-insert_observation P o (p ∷ ps) h u = elim (Bool-cases (leb o.expiry_date p.expiry_date)) [
  | inl e ↦ rw e (h, u)
  | inr e ↦ rw e (u.0, All-insert_observation P o ps h u.1)
]

pub All-sort_observations :
    (P : Observation → Type 0) (os : List Observation) → All P os → All P (sort_observations os)
unfolding sort_observations
All-sort_observations P [] u = tt
All-sort_observations P (o ∷ os) u =
    All-insert_observation P o (sort_observations os) u.0 (All-sort_observations P os u.1)

insert_observation-IsAscending :
    (o : Observation) (os : List Observation)
    → IsAscending os
    → IsAscending (insert_observation o os)
unfolding insert_observation
insert_observation-IsAscending o [] u = (tt, tt)
insert_observation-IsAscending o (p ∷ ps) u = elim (Bool-cases (leb o.expiry_date p.expiry_date)) [
  | inl e ↦
      let first = leb→le o.expiry_date p.expiry_date e in
      rw e (
        (
          first,
          All-map (λ q. p.expiry_date ≤ q.expiry_date) (λ q. o.expiry_date ≤ q.expiry_date) ps
              (λ q h. omega (arith, first, h)) u.0,
        ),
        u,
      )
  | inr e ↦
      let second : p.expiry_date ≤ o.expiry_date = ground (arith, e) in
      rw e (
        All-insert_observation (λ q. p.expiry_date ≤ q.expiry_date) o ps second u.0,
        insert_observation-IsAscending o ps u.1,
      )
]

sort_observations-IsAscending : (os : List Observation) → IsAscending (sort_observations os)
unfolding sort_observations
sort_observations-IsAscending [] = tt
sort_observations-IsAscending (o ∷ os) =
    insert_observation-IsAscending o (sort_observations os) (sort_observations-IsAscending os)

grow-join : (o : Observation) (ps : List Observation) → (grow o ps).0 ++ join (grow o ps).1 ≡ ps
unfolding grow
grow-join o [] = refl
grow-join o (p ∷ ps) = elim (Bool-cases (is_close o p)) [
  | inl e ↦ rw e (ap (λ x. p ∷ x) (grow-join p ps))
  | inr e ↦ rw e (ap (λ x. p ∷ x) (grow-join p ps))
]

grow-IsChain :
    (o : Observation) (ps : List Observation)
    → IsChain (o ∷ (grow o ps).0) × All IsChain (grow o ps).1
unfolding grow
grow-IsChain o [] = (tt, tt)
grow-IsChain o (p ∷ ps) =
    let rest = grow-IsChain p ps in
    elim (Bool-cases (is_close o p)) [
      | inl e ↦ rw e ((e, rest.0), rest.1)
      | inr e ↦ rw e (tt, rest)
    ]

-- A cluster that is longer at its front ends where it did.
IsSeparated-cons :
    (o p : Observation) (c : Cluster) (cs : List Cluster)
    → IsSeparated ((p ∷ c) ∷ cs)
    → IsSeparated ((o ∷ p ∷ c) ∷ cs)
IsSeparated-cons o p c [] u = tt
IsSeparated-cons o p c (d ∷ ds) u = u

grow-IsSeparated :
    (o : Observation) (ps : List Observation) → IsSeparated ((o ∷ (grow o ps).0) ∷ (grow o ps).1)
unfolding grow
grow-IsSeparated o [] = tt
grow-IsSeparated o (p ∷ ps) =
    let rest = grow-IsSeparated p ps in
    elim (Bool-cases (is_close o p)) [
      | inl e ↦ rw e (IsSeparated-cons o p (grow p ps).0 (grow p ps).1 rest)
      | inr e ↦ rw e (e, rest)
    ]

pub cluster_sorted-join : (os : List Observation) → join (cluster_sorted os) ≡ os
unfolding cluster_sorted
cluster_sorted-join [] = refl
cluster_sorted-join (o ∷ os) = ap (λ x. o ∷ x) (grow-join o os)

pub cluster_sorted-shape :
    (os : List Observation) → All IsChain (cluster_sorted os) × IsSeparated (cluster_sorted os)
unfolding cluster_sorted
cluster_sorted-shape [] = (tt, tt)
cluster_sorted-shape (o ∷ os) = (grow-IsChain o os, grow-IsSeparated o os)

-- The clusters hold the observations, each once and by expiry date. Within a cluster each is at most a
-- day after the one before it, and between a cluster and the next there is more than a day.
pub cluster_by_expiry-IsPartition : (os : List Observation) → IsPartition os (cluster_by_expiry os)
unfolding cluster_by_expiry
cluster_by_expiry-IsPartition os =
    let sorted = sort_observations os in
    let whole = cluster_sorted-join sorted in
    record {
      same_observations = subst (λ x. Permᴰ os x) (sym whole) (sort_observations-Permᴰ os);
      ascending = subst IsAscending (sym whole) (sort_observations-IsAscending os);
      chains = (cluster_sorted-shape sorted).0;
      separated = (cluster_sorted-shape sorted).1;
    }
