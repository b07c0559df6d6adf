-- ===== src/Tasks/Recurrence/Laws.antt =====
-- src/modules/tasks/utils/recurrence.utils.ts: the next due date is later than the last one, falls
-- on a day that the pattern asks for, and is there exactly while the quota and the end allow it.
use radha_backend.Prelude.{
  ℕ, zero, suc, ◌+◌, ◌-◌, ◌*◌, ◌/◌, ◌%◌, ◌≤◌, ◌<◌, min, max, ◌≡◌, ◌≢◌, refl, ap, ◌∙◌, ◌↔◌, ◌⊎◌, inl,
  inr, true, false, Option, none, some, List, [], ◌∷◌, arith, ltb, find, not, or_else, Bool-cases,
  Option-cases, ltb→lt,
}
use radha_backend.Prelude.Table.Laws.{find-holds}
use radha_backend.Dates.{
  ms_per_day, month_length, month_start, month_number, utc_day, full_year, month, date, week_day,
  seconds_of_day, civil,
}
use radha_backend.Dates.Days.{
  month_length_bounds, month_start_mono, civil_lem, civil-month_start, civil-last_day,
}
use radha_backend.Tasks.Recurrence.{
  Pattern, Frequency, daily, weekly, monthly, unknown, clamp_day_of_month, unique, sort_numbers,
  weekly_from, next_weekly, next_monthly, next_due, quota_reached, until_end,
  calculate_next_due_date, has_remaining_occurrences, remaining_of, is_recurrence_pattern,
  is_frequency,
}

-- The clamp is to the length of the month.
pub clamp_day_of_month_lem :
    (y m day : ℕ) → clamp_day_of_month y m day ≡ min day (month_length (month_number y m))
unfolding clamp_day_of_month utc_day
clamp_day_of_month_lem y m day =
    let k = month_number y m in
    let after : month_number y (m + 1) ≡ suc k = omega arith in
    let target : month_start (month_number y (m + 1)) + 0 - 1 ≡ month_start (suc k) - 1 =
      omega (arith, ap month_start after) in
    let last = civil-last_day k in
    ap (λ n. min day ((civil n).day + 1)) target ∙ ap (λ d. min day d) last.1

-- The month of an instant, numbered from January 1970.
pub month_now : ℕ → ℕ
month_now t = (civil (t / ms_per_day)).month

pub month_now_lem : (t : ℕ) → month_number (full_year t) (month t) ≡ month_now t
unfolding full_year month month_now
month_now_lem t = omega arith

-- The month that the monthly pattern aims at.
pub new_month_number :
    (interval t : ℕ)
    → month_number (full_year t + (month t + interval) / 12) ((month t + interval) % 12)
      ≡ month_now t + interval
unfolding full_year month month_now
new_month_number interval t = omega arith

next_monthly_lem :
    (interval t : ℕ) (day_of_month : Option ℕ)
    → next_monthly interval t day_of_month
      ≡ (month_start (month_now t + interval)
            + min (or_else day_of_month (date t)) (month_length (month_now t + interval))
            - 1)
          * ms_per_day
        + seconds_of_day t * 1000
unfolding next_monthly utc_day
next_monthly_lem interval t day_of_month = rw (clamp_day_of_month_lem, new_month_number interval t)

base_day-pos : (o : Option ℕ) (t : ℕ) → o ≢ some 0 → 1 ≤ or_else o (date t)
unfolding date
base_day-pos none t ne = omega arith
base_day-pos (some zero) t ne = absurd (ne refl)
base_day-pos (some (suc d)) t ne = omega arith

next_monthly-later :
    (interval t : ℕ) (day_of_month : Option ℕ)
    → 1 ≤ interval
    → day_of_month ≢ some 0
    → t < next_monthly interval t day_of_month
unfolding month_now date
next_monthly-later interval t day_of_month h dom =
    let (number, inside) = civil_lem (t / ms_per_day) in
    let next = month_now t + interval in
    let long = month_length_bounds next in
    let gone = month_start_mono (month_now t) next (omega arith) in
    let base : 1 ≤ or_else day_of_month (date t) = base_day-pos day_of_month t dom in
    rw (next_monthly_lem interval t day_of_month)
      (omega (arith, number, inside, long.0, gone, base))

weekly_from-later :
    (interval t : ℕ) (days : List ℕ) → 1 ≤ interval → t < weekly_from interval t days
unfolding week_day
weekly_from-later interval t [] h = omega arith
weekly_from-later interval t (first ∷ rest) h =
    elim (Option-cases (find (λ dow. ltb (week_day t) dow) (first ∷ rest))) [
      | inl wrapped ↦ rw wrapped (omega arith)
      | inr (dow, found) ↦
          let after = find-holds (λ d. ltb (week_day t) d) (first ∷ rest) found in
          let later = ltb→lt (week_day t) dow after in rw found (omega (arith, later))
    ]

next_due-later :
    (f : Frequency) (interval t : ℕ) (p : Pattern) {n : ℕ}
    → 1 ≤ interval
    → p.day_of_month ≢ some 0
    → next_due f interval t p ≡ some n
    → t < n
unfolding next_due next_weekly
next_due-later daily interval t p h dom e = ground (arith, e)
next_due-later weekly interval t p h dom e =
    let later =
      weekly_from-later interval t (sort_numbers (unique (or_else p.days_of_week []))) h in
    ground (arith, e, later)
next_due-later monthly interval t p h dom e =
    let later = next_monthly-later interval t p.day_of_month h dom in ground (arith, e, later)
next_due-later unknown interval t p h dom e = cc

until_end-some :
    (end : Option ℕ) (next : Option ℕ) {n : ℕ} → until_end end next ≡ some n → next ≡ some n
until_end-some none next e = e
until_end-some (some end) none e = cc
until_end-some (some end) (some m) e = ground arith

-- The next due date, where there is one, is later than the previous one: for every frequency,
-- interval, list of weekdays and quota, as long as no day 0 of the month is asked for.
pub calculate_next_due_date-later :
    (t : ℕ) (p : Pattern) (used : ℕ) {n : ℕ}
    → p.day_of_month ≢ some 0
    → calculate_next_due_date t p used ≡ some n
    → t < n
unfolding calculate_next_due_date
calculate_next_due_date-later t p used dom e =
    elim (Bool-cases (quota_reached p.occurrences used)) [
      | inl reached ↦ absurd (ground (arith, reached, e))
      | inr left ↦
          next_due-later p.type (max 1 p.interval) t p (omega arith) dom
            (until_end-some p.end_date (next_due p.type (max 1 p.interval) t p) (rw left at e))
    ]

quota_reached_lem : (o : Option ℕ) (used : ℕ) → quota_reached o used ≡ not (remaining_of o used)
quota_reached_lem none used = refl
quota_reached_lem (some quota) used = ground arith

-- When the end date cuts a next date off.
abbrev pub IsPast : Option ℕ → Option ℕ → Type 0
IsPast none next = ⊥
IsPast (some end) none = ⊥
IsPast (some end) (some n) = end < n

until_end-none : (end : Option ℕ) (n : ℕ) → (until_end end (some n) ≡ none) ↔ IsPast end (some n)
until_end-none none n = ((λ e. cc), (λ e. absurd e))
until_end-none (some end) n = (ground arith, ground arith)

next_due-some :
    (f : Frequency) (interval t : ℕ) (p : Pattern)
    → is_frequency f ≡ true
    → (n : ℕ) × (next_due f interval t p ≡ some n)
unfolding next_due
next_due-some daily interval t p h = (_, refl)
next_due-some weekly interval t p h = (_, refl)
next_due-some monthly interval t p h = (_, refl)
next_due-some unknown interval t p h = cc

-- A pattern that `isRecurrencePattern` accepts has no next due date exactly when
-- `hasRemainingOccurrences` says that its quota is used up, or when the date lies past its end.
pub calculate_next_due_date-none_iff :
    (t : ℕ) (p : Pattern) (used : ℕ)
    → is_recurrence_pattern p ≡ true
    → (calculate_next_due_date t p used ≡ none) ↔ (
        (has_remaining_occurrences p used ≡ false)
        ⊎ IsPast p.end_date (next_due p.type p.interval t p))
unfolding calculate_next_due_date has_remaining_occurrences is_recurrence_pattern
calculate_next_due_date-none_iff t p used ok_pattern =
    let whole : max 1 p.interval ≡ p.interval = ground arith in
    let known : is_frequency p.type ≡ true = ground arith in
    let (n, due) = next_due-some p.type p.interval t p known in
    let cut = until_end-none p.end_date n in
    elim (Bool-cases (remaining_of p.occurrences used)) [
      | inl left ↦
          rw (quota_reached_lem p.occurrences used, left, whole, due)
            ((λ e. inr (cut.0 e)), λ o. elim o [ inl e ↦ cc | inr past ↦ cut.1 past ])
      | inr gone ↦ rw (quota_reached_lem p.occurrences used, gone) ((λ e. inl refl), (λ o. refl))
    ]

-- A monthly due date, where no day 0 of the month is asked for, falls in the month that lies the
-- interval ahead, on the day asked for (or on the day of the previous date) cut down to the length
-- of that month, at the same second of the day.
pub next_monthly-date :
    (interval t : ℕ) (day_of_month : Option ℕ)
    → day_of_month ≢ some 0
    → let n = next_monthly interval t day_of_month in
      (month_now n ≡ month_now t + interval)
      × (date n ≡ min (or_else day_of_month (date t)) (month_length (month_now t + interval)))
      × (seconds_of_day n ≡ seconds_of_day t)
unfolding date month_now seconds_of_day
next_monthly-date interval t day_of_month dom =
    let next = month_now t + interval in
    let wanted = min (or_else day_of_month (date t)) (month_length next) in
    let long = month_length_bounds next in
    let base = base_day-pos day_of_month t dom in
    let on : next_monthly interval t day_of_month / ms_per_day ≡ month_start next + (wanted - 1) =
      rw (next_monthly_lem interval t day_of_month) (omega (arith, long.0, base)) in
    let (same_month, same_day) =
      civil-month_start next (wanted - 1) (omega (arith, long.0, base)) in
    (
      ap (λ d. (civil d).month) on ∙ same_month,
      ap (λ d. (civil d).day + 1) on ∙ omega (arith, same_day, long.0, base),
      rw (next_monthly_lem interval t day_of_month) (omega arith),
    )
