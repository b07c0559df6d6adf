-- ===== src/BatchDates.antt =====
-- src/modules/batch-dates/consensus.ts. Instants are milliseconds. A confidence is a fraction of two
-- whole numbers, as the floating-point quotient means it, and comparisons multiply out.
pub mod Clusters
pub mod Modal
pub mod Trust
mod Tests
use radha_backend.Dates.{ms_per_day}
use radha_backend.Prelude.{
  ℕ, suc, ◌+◌, ◌-◌, ◌*◌, Bool, true, false, not, ◌&&◌, ◌||◌, Option, none, some, List, [], ◌∷◌,
  ◌==◌, ltb, leb, if◌then◌else◌, any, select, length, map, or_else,
}

-- `BatchDateSource`
pub data DateSource : Type 0 where
  user_scan manual backfill_scan_items backfill_expiry_records : DateSource

pub record Ratio : Type 0 where
  pub num : ℕ
  pub den : ℕ

-- `BatchDateObservationInput`
pub record Observation : Type 0 where
  pub user_id : ℕ
  pub expiry_date : ℕ
  pub mfg_date : Option ℕ
  pub source : DateSource
  pub extractor_confidence : Option Ratio

-- `ConsensusStatus`
pub data ConsensusStatus : Type 0 where
  candidate trusted disputed : ConsensusStatus

-- `ConsensusSuggestion`
pub record Suggestion : Type 0 where
  pub expiry_date : Option ℕ
  pub mfg_date : Option ℕ
  pub distinct_users : ℕ

-- `ConsensusResult`
pub record ConsensusResult : Type 0 where
  pub status : ConsensusStatus
  pub consensus_expiry : Option ℕ
  pub consensus_mfg : Option ℕ
  pub confirmations : ℕ
  pub distinct_users : ℕ
  pub confidence : Ratio
  pub suggestions : List Suggestion

abbrev pub Cluster : Type 0
Cluster = List Observation

-- The sort by expiry date, which keeps the order of equal dates.
unfoldable pub insert_observation : Observation → List Observation → List Observation
insert_observation o [] = o ∷ []
insert_observation o (p ∷ ps) =
    let rest = insert_observation o ps in
    if leb o.expiry_date p.expiry_date then o ∷ p ∷ ps else p ∷ rest

unfoldable pub sort_observations : List Observation → List Observation
sort_observations [] = []
sort_observations (o ∷ os) = insert_observation o (sort_observations os)

-- `Math.abs(a.getTime() - b.getTime())`
abbrev pub distance : ℕ → ℕ → ℕ
distance a b = (a - b) + (b - a)

-- `_daysBetween(…) <= 1`
abbrev pub is_close : Observation → Observation → Bool
is_close o p = leb (distance o.expiry_date p.expiry_date) ms_per_day

-- What the loop makes of the observations after `o`: the rest of the cluster of `o`, and the clusters
-- that follow.
unfoldable pub grow : Observation → List Observation → Cluster × List Cluster
grow o [] = ([], [])
grow o (p ∷ ps) =
    let (current, rest) = grow p ps in
    if is_close o p then (p ∷ current, rest) else ([], (p ∷ current) ∷ rest)

unfoldable pub cluster_sorted : List Observation → List Cluster
cluster_sorted [] = []
cluster_sorted (o ∷ os) = let (current, rest) = grow o os in (o ∷ current) ∷ rest

-- `_clusterByExpiry`
unfoldable pub cluster_by_expiry : List Observation → List Cluster
cluster_by_expiry os = cluster_sorted (sort_observations os)

-- `_distinctUserCount`
unfoldable pub distinct_user_count : List Observation → ℕ
distinct_user_count [] = 0
distinct_user_count (o ∷ os) =
    let rest = distinct_user_count os in
    if any (λ (p : Observation). p.user_id == o.user_id) os then rest else suc rest

-- `_hasNonBackfillObservation`
abbrev pub is_real : Observation → Bool
is_real o = elim o.source [ user_scan ↦ true | manual ↦ true | _ ↦ false ]

unfoldable pub has_real_source : List Observation → Bool
has_real_source os = any is_real os

-- The keys of the map of `_modalDate`, in the order of their insertion, and their counts.
unfoldable pub distinct_dates : List ℕ → List ℕ
distinct_dates [] = []
distinct_dates (d ∷ ds) = d ∷ select (λ e. not (e == d)) (distinct_dates ds)

abbrev pub count_of : List ℕ → ℕ → ℕ
count_of values d = length (select (λ e. e == d) values)

-- The loop for the entry with the greatest count, the first of several.
unfoldable pub best_date : List ℕ → Option ℕ → List ℕ → Option ℕ
best_date values best [] = best
best_date values none (d ∷ ds) = best_date values (some d) ds
best_date values (some b) (d ∷ ds) =
    best_date values (some (if ltb (count_of values b) (count_of values d) then d else b)) ds

-- `_modalDate`
unfoldable pub modal_date : List ℕ → Option ℕ
modal_date values = best_date values none (distinct_dates values)

abbrev pub present : List (Option ℕ) → List ℕ
present [] = []
present (none ∷ ds) = present ds
present (some d ∷ ds) = d ∷ present ds

-- `_clusterExpirySummary`
unfoldable pub cluster_expiry : Cluster → Option ℕ
cluster_expiry c = modal_date (map (λ (o : Observation). o.expiry_date) c)

unfoldable pub cluster_mfg : Cluster → Option ℕ
cluster_mfg c = modal_date (present (map (λ (o : Observation). o.mfg_date) c))

-- The order of the clusters: more distinct users, then more observations, and else as they were.
abbrev pub ranks_first : Cluster → Cluster → Bool
ranks_first c d =
    ltb (distinct_user_count d) (distinct_user_count c)
    || (distinct_user_count d == distinct_user_count c && leb (length d) (length c))

unfoldable pub insert_cluster : Cluster → List Cluster → List Cluster
insert_cluster c [] = c ∷ []
insert_cluster c (d ∷ ds) =
    let rest = insert_cluster c ds in if ranks_first c d then c ∷ d ∷ ds else d ∷ rest

unfoldable pub rank_clusters : List Cluster → List Cluster
rank_clusters [] = []
rank_clusters (c ∷ cs) = insert_cluster c (rank_clusters cs)

-- `_daysBetween(…) > DISPUTED_MIN_GAP_DAYS`
abbrev pub is_far : Option ℕ → Option ℕ → Bool
is_far none e = false
is_far (some d) none = false
is_far (some d) (some e) = ltb (2 * ms_per_day) (distance d e)

abbrev pub suggestion : Cluster → Suggestion
suggestion c = record {
  expiry_date = cluster_expiry c;
  mfg_date = cluster_mfg c;
  distinct_users = distinct_user_count c;
}

abbrev pub dispute : Cluster → Cluster → ConsensusResult
dispute top second = record {
  status = disputed;
  consensus_expiry = none;
  consensus_mfg = none;
  confirmations = length top + length second;
  distinct_users = distinct_user_count top + distinct_user_count second;
  confidence = record { num = 0; den = 1 };
  suggestions = suggestion top ∷ suggestion second ∷ [];
}

abbrev pub agreed : ConsensusStatus → Cluster → ℕ → ℕ → Ratio → ConsensusResult
agreed status top confirmations users confidence = record {
  status = status;
  consensus_expiry = cluster_expiry top;
  consensus_mfg = cluster_mfg top;
  confirmations = confirmations;
  distinct_users = users;
  confidence = confidence;
  suggestions = [];
}

-- `Math.max(TRUST_CONFIDENCE_FLOOR, n / d)`
abbrev pub at_least_half : ℕ → ℕ → Ratio
at_least_half n d =
    if leb d (2 * n) then record { num = n; den = d } else record { num = 1; den = 2 }

-- `only.source === 'manual' || (only.extractorConfidence ?? 0) >= 0.9`
abbrev pub qualifies : Observation → Bool
qualifies o = elim o.source [
  | manual ↦ true
  | _ ↦
      let c = or_else o.extractor_confidence (record { num = 0; den = 1 }) in
      leb (9 * c.den) (10 * c.num)
]

abbrev pub lone_confidence : Observation → Ratio
lone_confidence o =
    if qualifies o
    then or_else o.extractor_confidence (record { num = 3; den = 4 })
    else or_else o.extractor_confidence (record { num = 3; den = 10 })

abbrev pub candidate_of : ℕ → Cluster → ConsensusResult
candidate_of total (only ∷ []) = agreed candidate (only ∷ []) 1 1 (lone_confidence only)
candidate_of total top =
    agreed candidate top (length top) (distinct_user_count top)
      (record { num = distinct_user_count top; den = total })

-- The result where there is no dispute.
unfoldable pub winner : ℕ → Cluster → ConsensusResult
winner total top =
    if leb 3 (distinct_user_count top) && has_real_source top
    then agreed trusted top (length top) (distinct_user_count top)
        (at_least_half (distinct_user_count top) total)
    else candidate_of total top

unfoldable pub is_disputed : Cluster → Cluster → Bool
is_disputed top second =
    leb 2 (distinct_user_count top)
    && (leb 2 (distinct_user_count second) && is_far (cluster_expiry top) (cluster_expiry second))

abbrev pub decide : ℕ → List Cluster → Option ConsensusResult
decide total [] = none
decide total (top ∷ []) = some (winner total top)
decide total (top ∷ second ∷ rest) =
    some (if is_disputed top second then dispute top second else winner total top)

-- `computeConsensus`: it throws where there is no observation
unfoldable pub compute_consensus : List Observation → Option ConsensusResult
compute_consensus os = decide (distinct_user_count os) (rank_clusters (cluster_by_expiry os))
