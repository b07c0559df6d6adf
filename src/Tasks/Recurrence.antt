-- ===== src/Tasks/Recurrence.antt =====
-- src/modules/tasks/utils/recurrence.utils.ts. An interval is a whole number, as the request's
-- schema asks for.
pub mod Laws
pub mod Weekly
mod Tests
use radha_backend.Prelude.{
  ℕ, zero, suc, ◌+◌, ◌-◌, ◌*◌, ◌/◌, ◌%◌, min, max, Bool, true, false, ◌&&◌, Option, none, some,
  List, [], ◌∷◌, ◌==◌, ltb, leb, if◌then◌else◌, find, select, not, or_else,
}
use radha_backend.Dates.{
  ms_per_day, utc_day, full_year, month, date, week_day, seconds_of_day, civil,
}

-- `RecurrenceFrequency`, and any other text that the stored value may hold
pub data Frequency : Type 0 where
  daily weekly monthly unknown : Frequency

-- `RecurrencePattern`
pub record Pattern : Type 0 where
  pub type : Frequency
  pub interval : ℕ
  pub days_of_week : Option (List ℕ)
  pub day_of_month : Option ℕ
  pub end_date : Option ℕ
  pub occurrences : Option ℕ

abbrev pub is_frequency : Frequency → Bool
is_frequency unknown = false
is_frequency _ = true

-- `isRecurrencePattern`
unfoldable pub is_recurrence_pattern : Pattern → Bool
is_recurrence_pattern p = is_frequency p.type && leb 1 p.interval

-- `clampDayOfMonth`: day 0 of the next month is the last day of this one.
unfoldable pub clamp_day_of_month : ℕ → ℕ → ℕ → ℕ
clamp_day_of_month year month day =
    let last_day = (civil (utc_day year (month + 1) 0)).day + 1 in min day last_day

-- `new Set(days)`
unfoldable pub unique : List ℕ → List ℕ
unique [] = []
unique (d ∷ ds) = d ∷ select (λ e. not (e == d)) (unique ds)

unfoldable pub insert_number : ℕ → List ℕ → List ℕ
insert_number d [] = d ∷ []
insert_number d (e ∷ es) = let rest = insert_number d es in if leb d e then d ∷ e ∷ es else e ∷ rest

-- `.sort((a, b) => a - b)`
unfoldable pub sort_numbers : List ℕ → List ℕ
sort_numbers [] = []
sort_numbers (d ∷ ds) = insert_number d (sort_numbers ds)

-- The first listed day after `prev`, or else the wrap into the first listed day of a later week.
abbrev pub days_until : ℕ → ℕ → ℕ → Option ℕ → ℕ
days_until interval prev first (some dow) = dow - prev
days_until interval prev first none = 7 * interval + first - prev

abbrev pub weekly_from : ℕ → ℕ → List ℕ → ℕ
weekly_from interval previous [] = previous + interval * 7 * ms_per_day
weekly_from interval previous (first ∷ rest) =
    let prev = week_day previous in
    previous
    + days_until interval prev first (find (λ dow. ltb prev dow) (first ∷ rest)) * ms_per_day

unfoldable pub next_weekly : ℕ → ℕ → List ℕ → ℕ
next_weekly interval previous days = weekly_from interval previous (sort_numbers (unique days))

unfoldable pub next_monthly : ℕ → ℕ → Option ℕ → ℕ
next_monthly interval previous day_of_month =
    let base_day = or_else day_of_month (date previous) in
    let new_month = month previous + interval in
    let new_year = full_year previous + new_month / 12 in
    let adjusted_month = new_month % 12 in
    let day = clamp_day_of_month new_year adjusted_month base_day in
    utc_day new_year adjusted_month day * ms_per_day + seconds_of_day previous * 1000

-- The `switch` on the pattern's type.
unfoldable pub next_due : Frequency → ℕ → ℕ → Pattern → Option ℕ
next_due daily interval previous p = some (previous + interval * ms_per_day)
next_due weekly interval previous p =
    some (next_weekly interval previous (or_else p.days_of_week []))
next_due monthly interval previous p = some (next_monthly interval previous p.day_of_month)
next_due unknown interval previous p = none

-- The quota test at the head of the function.
abbrev pub quota_reached : Option ℕ → ℕ → Bool
quota_reached none used = false
quota_reached (some quota) used = leb quota (used + 1) && ltb quota (used + 1)

abbrev pub until_end : Option ℕ → Option ℕ → Option ℕ
until_end none next = next
until_end (some end) none = none
until_end (some end) (some next) = if ltb end next then none else some next

-- `calculateNextDueDate`
unfoldable pub calculate_next_due_date : ℕ → Pattern → ℕ → Option ℕ
calculate_next_due_date previous p used =
    if quota_reached p.occurrences used
    then none
    else until_end p.end_date (next_due p.type (max 1 p.interval) previous p)

abbrev pub remaining_of : Option ℕ → ℕ → Bool
remaining_of none used = true
remaining_of (some quota) used = ltb used quota

-- `hasRemainingOccurrences`
unfoldable pub has_remaining_occurrences : Pattern → ℕ → Bool
has_remaining_occurrences p used = remaining_of p.occurrences used
