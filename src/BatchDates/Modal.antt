-- ===== src/BatchDates/Modal.antt =====
-- src/modules/batch-dates/consensus.ts: `_modalDate`, which picks the date of a cluster.
use radha_backend.Prelude.{
  ℕ, suc, ◌≤◌, ◌<◌, ◌≡◌, refl, sym, subst, some, List, [], ◌∷◌, map, arith, inl, inr, Bool-cases,
  not, ◌==◌, ==_iff, ==_refl, ltb, ltb→lt, ltb-ge, All, select, if◌then◌else◌,
}
use radha_backend.Prelude.Table.Laws.{All-map, All-select}
use radha_backend.BatchDates.{
  Observation, Cluster, distinct_dates, count_of, best_date, modal_date, cluster_expiry,
}

-- The number of a cluster's observations that report the date.
abbrev pub reports : ℕ → Cluster → ℕ
reports d [] = 0
reports d (o ∷ os) = let rest = reports d os in if o.expiry_date == d then suc rest else rest

-- A date of the cluster, and none of its dates is reported more often.
pub record IsMode (d : ℕ) (c : Cluster) : Type 0 where
  pub reported : 0 < reports d c
  pub most : All (λ (o : Observation). reports o.expiry_date c ≤ reports d c) c

-- The loop keeps a date that is counted at least as often as those it has passed.
best_date-most :
    (values : List ℕ) (b : ℕ) (ds : List ℕ) (P : ℕ → Type 0)
    → P b
    → All P ds
    → (m : ℕ) × (best_date values (some b) ds ≡ some m)
      × P m
      × (count_of values b ≤ count_of values m)
      × All (λ d. count_of values d ≤ count_of values m) ds
unfolding best_date
best_date-most values b [] P h u = (b, refl, h, omega arith, tt)
best_date-most values b (d ∷ ds) P h u =
    elim (Bool-cases (ltb (count_of values b) (count_of values d))) [
      | inl more ↦
          let (m, e, holds, above, others) = best_date-most values d ds P u.0 u.1 in
          let less = ltb→lt (count_of values b) (count_of values d) more in
          (m, rw more e, holds, omega (arith, above, less), (above, others))
      | inr less ↦
          let (m, e, holds, above, others) = best_date-most values b ds P h u.1 in
          let few = ltb-ge (count_of values b) (count_of values d) less in
          (m, rw less e, holds, above, (omega (arith, above, few), others))
    ]

-- What holds of all the dates holds of the keys of the map, and the other way round.
All-distinct_dates : (P : ℕ → Type 0) (ds : List ℕ) → All P ds → All P (distinct_dates ds)
unfolding distinct_dates
All-distinct_dates P [] u = tt
All-distinct_dates P (d ∷ ds) u =
    (u.0, All-select P (λ e. not (e == d)) (distinct_dates ds) (All-distinct_dates P ds u.1))

All-unselect :
    (P : ℕ → Type 0) (d : ℕ) (es : List ℕ) → P d → All P (select (λ e. not (e == d)) es) → All P es
All-unselect P d [] h v = tt
All-unselect P d (e ∷ es) h v = elim (Bool-cases (e == d)) [
  | inl same ↦
      let w : All P (select (λ k. not (k == d)) es) = rw same at v in
      (subst P (sym ((==_iff e d).0 same)) h, All-unselect P d es h w)
  | inr other ↦
      let w : All P (e ∷ select (λ k. not (k == d)) es) = rw other at v in
      (w.0, All-unselect P d es h w.1)
]

All-of_distinct_dates : (P : ℕ → Type 0) (ds : List ℕ) → All P (distinct_dates ds) → All P ds
unfolding distinct_dates
All-of_distinct_dates P [] u = tt
All-of_distinct_dates P (d ∷ ds) u =
    (u.0, All-of_distinct_dates P ds (All-unselect P d (distinct_dates ds) u.0 u.1))

count_of-pos : (ds : List ℕ) → All (λ d. 0 < count_of ds d) ds
count_of-pos [] = tt
count_of-pos (d ∷ ds) = (
  rw (==_refl d) (omega arith),
  All-map (λ e. 0 < count_of ds e) (λ e. 0 < count_of (d ∷ ds) e) ds (λ e h. ground (arith, h))
      (count_of-pos ds),
)

modal_date-most :
    (v : ℕ) (vs : List ℕ)
    → (m : ℕ) × (modal_date (v ∷ vs) ≡ some m)
      × (0 < count_of (v ∷ vs) m)
      × All (λ d. count_of (v ∷ vs) d ≤ count_of (v ∷ vs) m) (v ∷ vs)
unfolding modal_date best_date distinct_dates
modal_date-most v vs =
    let values = v ∷ vs in
    let counted = All-distinct_dates (λ d. 0 < count_of values d) values (count_of-pos values) in
    let (m, e, here, above, others) =
      best_date-most values v (select (λ k. not (k == v)) (distinct_dates vs))
        (λ d. 0 < count_of values d) counted.0 counted.1 in
    (
      m,
      e,
      here,
      All-of_distinct_dates (λ d. count_of values d ≤ count_of values m) values (above, others),
    )

expiries : Cluster → List ℕ
expiries c = map (λ (o : Observation). o.expiry_date) c

count_of-reports : (d : ℕ) (c : Cluster) → count_of (expiries c) d ≡ reports d c
unfolding expiries
count_of-reports d [] = refl
count_of-reports d (o ∷ os) = ground (arith, count_of-reports d os)

All-expiries :
    (P : ℕ → Type 0) (c : Cluster)
    → All P (expiries c)
    → All (λ (o : Observation). P o.expiry_date) c
unfolding expiries
All-expiries P [] u = tt
All-expiries P (o ∷ os) u = (u.0, All-expiries P os u.1)

-- The date of a cluster that is not empty is there, and is its most frequent one.
pub cluster_expiry-IsMode :
    (o : Observation) (os : Cluster)
    → (m : ℕ) × (cluster_expiry (o ∷ os) ≡ some m) × IsMode m (o ∷ os)
unfolding cluster_expiry expiries
cluster_expiry-IsMode o os =
    let c = o ∷ os in
    let (m, e, here, most) = modal_date-most o.expiry_date (expiries os) in
    (
      m,
      e,
      record {
        reported = subst (λ n. 0 < n) (count_of-reports m c) here;
        most =
            All-map
              (λ (p : Observation). count_of (expiries c) p.expiry_date ≤ count_of (expiries c) m)
              (λ (p : Observation). reports p.expiry_date c ≤ reports m c) c
              (λ p h. omega (arith, h, count_of-reports p.expiry_date c, count_of-reports m c))
              (All-expiries (λ d. count_of (expiries c) d ≤ count_of (expiries c) m) c most);
      },
    )
