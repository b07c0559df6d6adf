-- ===== src/Dates/Days.antt =====
-- The days of the calendar: `Date.UTC` and the readers undo one another, and months follow one
-- another.
use radha_backend.Prelude.{
  ℕ, zero, suc, ◌+◌, ◌-◌, ◌/◌, ◌%◌, ◌≤◌, ◌<◌, ◌≡◌, refl, subst, ap, ◌∙◌, arith, inl, inr, ltb,
  Bool-cases, ltb→lt, ltb-ge,
}
use radha_backend.Dates.{days_in_month, month_length, month_start, civil_from, civil}

pub days_in_month_bounds : (y m : ℕ) → (28 ≤ days_in_month y m) × (days_in_month y m ≤ 31)
unfolding days_in_month
days_in_month_bounds y zero = omega arith
days_in_month_bounds y (suc zero) = ground arith
days_in_month_bounds y (suc (suc m)) = ground arith

pub month_length_bounds : (k : ℕ) → (28 ≤ month_length k) × (month_length k ≤ 31)
unfolding month_length
month_length_bounds k = days_in_month_bounds (1970 + k / 12) (k % 12)

-- The search ends at a month that holds the day, and loses no day.
pub civil_from_lem :
    (fuel k n : ℕ)
    → n < fuel
    → let c = civil_from fuel k n in
      (month_start c.month + c.day ≡ month_start k + n)
      × (c.day < month_length c.month)
      × (k ≤ c.month)
unfolding civil_from month_start
civil_from_lem zero k n h = elim h [ ]
civil_from_lem (suc fuel) k n h = elim (Bool-cases (ltb n (month_length k))) [
  | inl inside ↦ rw inside (refl, ltb→lt n (month_length k) inside, omega arith)
  | inr past ↦
      let long = month_length_bounds k in
      let over = ltb-ge n (month_length k) past in
      let rest = civil_from_lem fuel (suc k) (n - month_length k) (omega (arith, long.0)) in
      rw past (omega (arith, rest.0, over), rest.1, omega (arith, rest.2))
]

-- Reading a day's number gives a day of a month whose number it is.
pub civil_lem :
    (n : ℕ)
    → (month_start (civil n).month + (civil n).day ≡ n)
      × ((civil n).day < month_length (civil n).month)
unfolding civil month_start
civil_lem n =
    let found = civil_from_lem (suc n) 0 n (omega arith) in (omega (arith, found.0), found.1)

-- A month ends before the next one begins.
pub month_start_mono : (k j : ℕ) → k < j → month_start k + month_length k ≤ month_start j
unfolding month_start
month_start_mono k zero h = elim h [ ]
month_start_mono k (suc j) h = elim (Bool-cases (ltb k j)) [
  | inl before ↦ omega (arith, month_start_mono k j (ltb→lt k j before))
  | inr not_before ↦
      let last : k ≡ j = omega (arith, ltb-ge k j not_before) in
      subst (λ m. month_start k + month_length k ≤ month_start m + month_length m) last
        (omega arith)
]

month_unique :
    (k j d e : ℕ)
    → d < month_length k
    → e < month_length j
    → month_start k + d ≡ month_start j + e
    → k ≡ j
month_unique k j d e h g same = elim (Bool-cases (ltb k j)) [
  | inl less ↦ absurd (omega (arith, month_start_mono k j (ltb→lt k j less)))
  | inr not_less ↦ elim (Bool-cases (ltb j k)) [
    | inl more ↦ absurd (omega (arith, month_start_mono j k (ltb→lt j k more)))
    | inr not_more ↦ omega (arith, ltb-ge k j not_less, ltb-ge j k not_more)
  ]
]

-- A day inside a month is read back as that day of that month.
pub civil-month_start :
    (k d : ℕ)
    → d < month_length k
    → ((civil (month_start k + d)).month ≡ k) × ((civil (month_start k + d)).day ≡ d)
civil-month_start k d h =
    let (number, inside) = civil_lem (month_start k + d) in
    let c = civil (month_start k + d) in
    let same : c.month ≡ k = month_unique c.month k c.day d inside h number in
    (same, omega (arith, number, ap month_start same))

-- The day before a month begins is the last day of the month before it.
pub civil-last_day :
    (k : ℕ)
    → ((civil (month_start (suc k) - 1)).month ≡ k)
      × ((civil (month_start (suc k) - 1)).day + 1 ≡ month_length k)
unfolding month_start
civil-last_day k =
    let long = month_length_bounds k in
    let last : month_start k + month_length k - 1 ≡ month_start k + (month_length k - 1) =
      omega (arith, long.0) in
    let (m, d) = civil-month_start k (month_length k - 1) (omega (arith, long.0)) in
    (
      ap (λ n. (civil n).month) last ∙ m,
      ap (λ n. (civil n).day + 1) last ∙ omega (arith, d, long.0),
    )
