-- ===== src/BatchDates/Tests.antt =====
-- Observations as examples of src/modules/batch-dates/consensus.ts, and the theorems at them.
use mathlib.Core.List.{Mem}
use radha_backend.Prelude.{ℕ, ◌*◌, ◌≡◌, ◌≢◌, refl, Option, none, some, List, [], ◌∷◌, All}
use radha_backend.BatchDates.{
  Observation, Cluster, DateSource, user_scan, manual, backfill_scan_items, candidate, trusted,
  disputed, ConsensusResult, insert_observation, sort_observations, grow, cluster_sorted,
  cluster_by_expiry, distinct_user_count, has_real_source, distinct_dates, best_date, modal_date,
  cluster_expiry, cluster_mfg, insert_cluster, rank_clusters, winner, is_disputed,
  compute_consensus,
}
use radha_backend.BatchDates.Clusters.{IsChain, IsPartition, cluster_by_expiry-IsPartition}
use radha_backend.BatchDates.Trust.{IsWon, compute_consensus-IsWon, compute_consensus-untrusted}

-- The definitions that a run computes with.
runs : Unit {0}
unfolding insert_observation sort_observations grow cluster_sorted cluster_by_expiry
    distinct_user_count has_real_source distinct_dates best_date modal_date cluster_expiry
    cluster_mfg insert_cluster rank_clusters winner is_disputed compute_consensus
runs = tt

abbrev seen : ℕ → DateSource → ℕ → Observation
seen user source day = record {
  user_id = user;
  expiry_date = day * 86400000;
  mfg_date = none;
  source = source;
  extractor_confidence = none;
}

abbrev three : List Observation
three =
    seen 1 user_scan 40
    ∷ seen 2 backfill_scan_items 41
    ∷ seen 4 manual 90
    ∷ seen 3 backfill_scan_items 41
    ∷ []

abbrev backfill : List Observation
backfill =
    seen 1 backfill_scan_items 40
    ∷ seen 2 backfill_scan_items 41
    ∷ seen 3 backfill_scan_items 41
    ∷ []

abbrev nothing : ConsensusResult
nothing = record {
  status = candidate;
  consensus_expiry = none;
  consensus_mfg = none;
  confirmations = 0;
  distinct_users = 0;
  confidence = record { num = 0; den = 1 };
  suggestions = [];
}

abbrev result_of : Option ConsensusResult → ConsensusResult
result_of none = nothing
result_of (some r) = r

-- Two users against two, fifty days apart.
split_is_disputed :
    (result_of (
      compute_consensus
        (seen 1 manual 40 ∷ seen 2 manual 40 ∷ seen 3 manual 90 ∷ seen 4 manual 90 ∷ []))).status
    ≡ disputed
unfolding runs
split_is_disputed = refl

cluster_by_expiry-IsPartition_example : IsPartition three (cluster_by_expiry three)
cluster_by_expiry-IsPartition_example = cluster_by_expiry-IsPartition three

compute_consensus-IsWon_example :
    (c : Cluster) × (All (λ o. Mem o three) c × IsChain c)
    × IsWon c (result_of (compute_consensus three))
unfolding runs
compute_consensus-IsWon_example = compute_consensus-IsWon three refl refl

compute_consensus-untrusted_example : (result_of (compute_consensus backfill)).status ≢ trusted
unfolding runs
compute_consensus-untrusted_example =
    compute_consensus-untrusted backfill (refl, (refl, (refl, tt))) refl
