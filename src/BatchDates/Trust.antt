-- ===== src/BatchDates/Trust.antt =====
-- src/modules/batch-dates/consensus.ts: what a trusted date rests on.
use mathlib.Core.List.{Mem, mem-cons_self, mem-cons_of_mem}
use radha_backend.Prelude.{
  ℕ, ◌*◌, ◌≤◌, ◌≡◌, ◌≢◌, refl, subst, sym, ap, ◌∙◌, true, false, ◌&&◌, Option, none, some, List, [],
  ◌∷◌, ◌++◌, arith, inl, inr, Bool-cases, leb, leb→le, All, length,
}
use radha_backend.Prelude.Table.Laws.{All-map, All-both}
use radha_backend.BatchDates.{
  Observation, Cluster, ConsensusStatus, candidate, trusted, disputed, ConsensusResult,
  sort_observations, cluster_sorted, cluster_by_expiry, distinct_user_count, is_real,
  has_real_source, ranks_first, insert_cluster, rank_clusters, dispute, at_least_half, candidate_of,
  winner, is_disputed, decide, compute_consensus,
}
use radha_backend.BatchDates.Modal.{IsMode, cluster_expiry-IsMode}
use radha_backend.BatchDates.Clusters.{
  join, IsChain, All-sort_observations, cluster_sorted-join, cluster_sorted-shape,
}

All-append_left :
    (P : Observation → Type 0) (xs ys : List Observation) → All P (xs ++ ys) → All P xs
All-append_left P [] ys u = tt
All-append_left P (x ∷ xs) ys u = (u.0, All-append_left P xs ys u.1)

All-append_right :
    (P : Observation → Type 0) (xs ys : List Observation) → All P (xs ++ ys) → All P ys
All-append_right P [] ys u = u
All-append_right P (x ∷ xs) ys u = All-append_right P xs ys u.1

All-join : (P : Observation → Type 0) (cs : List Cluster) → All P (join cs) → All (All P) cs
All-join P [] u = tt
All-join P (c ∷ cs) u =
    (All-append_left P c (join cs) u, All-join P cs (All-append_right P c (join cs) u))

All-insert_cluster :
    (Q : Cluster → Type 0) (c : Cluster) (cs : List Cluster)
    → Q c
    → All Q cs
    → All Q (insert_cluster c cs)
unfolding insert_cluster
All-insert_cluster Q c [] h u = (h, tt)
All-insert_cluster Q c (d ∷ ds) h u = elim (Bool-cases (ranks_first c d)) [
  | inl e ↦ rw e (h, u)
  | inr e ↦ rw e (u.0, All-insert_cluster Q c ds h u.1)
]

All-rank_clusters : (Q : Cluster → Type 0) (cs : List Cluster) → All Q cs → All Q (rank_clusters cs)
unfolding rank_clusters
All-rank_clusters Q [] u = tt
All-rank_clusters Q (c ∷ cs) u =
    All-insert_cluster Q c (rank_clusters cs) u.0 (All-rank_clusters Q cs u.1)

-- What holds of all observations holds of those of every cluster, and every cluster is a chain.
ranked-hold :
    (P : Observation → Type 0) (os : List Observation)
    → All P os
    → All (λ c. All P c × IsChain c) (rank_clusters (cluster_by_expiry os))
unfolding cluster_by_expiry
ranked-hold P os u =
    let sorted = sort_observations os in
    let members : All P (join (cluster_sorted sorted)) =
      rw (cluster_sorted-join sorted) (All-sort_observations P os u) in
    All-rank_clusters (λ c. All P c × IsChain c) (cluster_sorted sorted)
      (All-both (All P) IsChain (cluster_sorted sorted) (All-join P (cluster_sorted sorted) members)
        (cluster_sorted-shape sorted).0)

candidate_of-status : (total : ℕ) (c : Cluster) → (candidate_of total c).status ≡ candidate
candidate_of-status total [] = refl
candidate_of-status total (o ∷ []) = refl
candidate_of-status total (o ∷ p ∷ ps) = refl

candidate_untrusted : (s : ConsensusStatus) → s ≡ candidate → s ≢ trusted
candidate_untrusted s h k = let clash : candidate ≡ trusted = sym h ∙ k in cc

disputed_untrusted : (s : ConsensusStatus) → s ≡ disputed → s ≢ trusted
disputed_untrusted s h k = let clash : disputed ≡ trusted = sym h ∙ k in cc

abbrev status_of : Option ConsensusResult → ConsensusStatus
status_of none = disputed
status_of (some r) = r.status

-- The result is trusted on the strength of the cluster.
pub record IsWon (c : Cluster) (r : ConsensusResult) : Type 0 where
  pub users : 3 ≤ distinct_user_count c
  pub real : has_real_source c ≡ true
  pub date : ℕ
  pub expiry : r.consensus_expiry ≡ some date
  pub mode : IsMode date c
  pub confirmations : r.confirmations ≡ length c
  pub distinct_users : r.distinct_users ≡ distinct_user_count c
  pub confidence : r.confidence.den ≤ 2 * r.confidence.num

at_least_half-bound : (n d : ℕ) → (at_least_half n d).den ≤ 2 * (at_least_half n d).num
at_least_half-bound n d = elim (Bool-cases (leb d (2 * n))) [
  | inl e ↦ rw e (leb→le d (2 * n) e)
  | inr e ↦ rw e (omega arith)
]

winner-IsWon :
    (total : ℕ) (c : Cluster) → (winner total c).status ≡ trusted → IsWon c (winner total c)
unfolding winner distinct_user_count
winner-IsWon total [] h = absurd (candidate_untrusted _ (candidate_of-status total []) h)
winner-IsWon total (o ∷ os) h =
    let c = o ∷ os in
    let (m, dated, mode) = cluster_expiry-IsMode o os in
    elim (Bool-cases (leb 3 (distinct_user_count c) && has_real_source c)) [
      | inr e ↦
          let found = rw e at h in
          absurd (candidate_untrusted _ (candidate_of-status total c) found)
      | inl e ↦ rw e (record {
        users = leb→le 3 (distinct_user_count c) (ground (arith, e));
        real = ground (arith, e);
        date = m;
        expiry = dated;
        mode = mode;
        confirmations = refl;
        distinct_users = refl;
        confidence = at_least_half-bound (distinct_user_count c) total;
      })
    ]

decide-IsWon :
    (total : ℕ) (cs : List Cluster) (Q : Cluster → Type 0) {r : ConsensusResult}
    → All Q cs
    → decide total cs ≡ some r
    → r.status ≡ trusted
    → (c : Cluster) × Q c × IsWon c r
decide-IsWon total [] Q u e h = cc
decide-IsWon total (top ∷ []) Q {r} u e h =
    let same : winner total top ≡ r = ground (arith, e) in
    (
      top,
      u.0,
      subst (IsWon top) same
          (winner-IsWon total top (ap (λ (x : ConsensusResult). x.status) same ∙ h)),
    )
decide-IsWon total (top ∷ second ∷ rest) Q {r} u e h = elim (Bool-cases (is_disputed top second)) [
  | inl d ↦
      let same : some (dispute top second) ≡ some r = rw d at e in
      absurd (disputed_untrusted r.status (ap status_of (sym same)) h)
  | inr n ↦
      let found : some (winner total top) ≡ some r = rw n at e in
      let same : winner total top ≡ r = ground (arith, found) in
      (
        top,
        u.0,
        subst (IsWon top) same
            (winner-IsWon total top (ap (λ (x : ConsensusResult). x.status) same ∙ h)),
      )
]

All-Mem : (os : List Observation) → All (λ o. Mem o os) os
All-Mem [] = tt
All-Mem (o ∷ os) = (
  mem-cons_self,
  All-map (λ p. Mem p os) (λ p. Mem p (o ∷ os)) os (λ p m. mem-cons_of_mem o m) (All-Mem os),
)

-- A trusted result rests on a cluster of the observations, in which each is at most a day after the one
-- before: at least three different users are in it, and one observation at least is a scan or was
-- entered by hand. The date of the result is one that the cluster reports, and the cluster reports
-- no date more often. The result counts the observations and the users of the cluster, and its
-- confidence is at least a half.
pub compute_consensus-IsWon :
    (os : List Observation) {r : ConsensusResult}
    → compute_consensus os ≡ some r
    → r.status ≡ trusted
    → (c : Cluster) × (All (λ o. Mem o os) c × IsChain c) × IsWon c r
unfolding compute_consensus
compute_consensus-IsWon os e h =
    decide-IsWon (distinct_user_count os) (rank_clusters (cluster_by_expiry os))
      (λ c. All (λ o. Mem o os) c × IsChain c) (ranked-hold (λ o. Mem o os) os (All-Mem os)) e h

real_source-none : (c : Cluster) → All (λ o. is_real o ≡ false) c → has_real_source c ≡ false
unfolding has_real_source
real_source-none [] u = refl
real_source-none (o ∷ os) u = rw u.0 (real_source-none os u.1)

-- Where all the observations are backfilled, the result is not trusted, however many there are.
pub compute_consensus-untrusted :
    (os : List Observation) {r : ConsensusResult}
    → All (λ o. is_real o ≡ false) os
    → compute_consensus os ≡ some r
    → r.status ≢ trusted
unfolding compute_consensus
compute_consensus-untrusted os backfilled e h =
    let (c, (none_real, chain), won) =
      decide-IsWon (distinct_user_count os) (rank_clusters (cluster_by_expiry os))
        (λ c. All (λ o. is_real o ≡ false) c × IsChain c)
        (ranked-hold (λ o. is_real o ≡ false) os backfilled) e h in
    let clash : true ≡ false = sym won.real ∙ real_source-none c none_real in cc
