-- ===== src/Tasks/Recurrence/Tests.antt =====
-- src/modules/tasks/utils/recurrence.utils.ts: tests.
use radha_backend.Prelude.{
  ℕ, ◌+◌, ◌*◌, ◌<◌, min, ◌≡◌, refl, ◌↔◌, ◌⊎◌, none, some, [], ◌∷◌, arith, false,
}
use radha_backend.Dates.{
  ms_per_day, month_length, date, seconds_of_day, utc_day, civil, civil_from, full_year, month,
  month_start, days_in_month,
}
use radha_backend.Tasks.Recurrence.{
  Pattern, daily, monthly, calculate_next_due_date, next_weekly, next_monthly, next_due,
  has_remaining_occurrences, is_recurrence_pattern, clamp_day_of_month,
}
use radha_backend.Tasks.Recurrence.Laws.{
  calculate_next_due_date-later, calculate_next_due_date-none_iff, next_monthly-date, month_now,
  IsPast,
}
use radha_backend.Tasks.Recurrence.Weekly.{next_weekly-day, FallsOn}

-- Saturday, 31 January 1970, half past eight in the morning
abbrev last_of_january : ℕ
last_of_january = 30 * ms_per_day + 30600000

abbrev monthly_twice : Pattern
monthly_twice = record {
  type = monthly;
  interval = 1;
  days_of_week = none;
  day_of_month = none;
  end_date = none;
  occurrences = some 2;
}

abbrev daily_until : Pattern
daily_until = record {
  type = daily;
  interval = 3;
  days_of_week = none;
  day_of_month = none;
  end_date = some (32 * ms_per_day);
  occurrences = none;
}

-- The 31st of January is followed by the 28th of February.
end_of_february : next_monthly 1 last_of_january none ≡ 58 * ms_per_day + 30600000
unfolding next_monthly clamp_day_of_month civil civil_from month_start utc_day full_year month date
    seconds_of_day days_in_month month_length
end_of_february = refl

next_due-monthly :
    calculate_next_due_date last_of_january monthly_twice 1 ≡ some (58 * ms_per_day + 30600000)
unfolding calculate_next_due_date next_due next_monthly clamp_day_of_month civil civil_from
    month_start utc_day full_year month date seconds_of_day days_in_month month_length
next_due-monthly = refl

calculate_next_due_date-later_example : last_of_january < 58 * ms_per_day + 30600000
calculate_next_due_date-later_example =
    calculate_next_due_date-later last_of_january monthly_twice 1 (λ h. cc) next_due-monthly

calculate_next_due_date-none_iff_example :
    (calculate_next_due_date last_of_january daily_until 5 ≡ none) ↔ (
      (has_remaining_occurrences daily_until 5 ≡ false)
      ⊎ IsPast (some (32 * ms_per_day)) (next_due daily 3 last_of_january daily_until))
unfolding is_recurrence_pattern
calculate_next_due_date-none_iff_example =
    calculate_next_due_date-none_iff last_of_january daily_until 5 refl

next_monthly-date_example :
    let n = next_monthly 1 last_of_january (some 30) in
    (month_now n ≡ month_now last_of_january + 1)
    × (date n ≡ min 30 (month_length (month_now last_of_january + 1)))
    × (seconds_of_day n ≡ seconds_of_day last_of_january)
next_monthly-date_example = next_monthly-date 1 last_of_january (some 30) (λ h. cc)

next_weekly-day_example :
    FallsOn 2 last_of_january (5 ∷ 1 ∷ 1 ∷ []) (next_weekly 2 last_of_january (5 ∷ 1 ∷ 1 ∷ []))
next_weekly-day_example =
    next_weekly-day 2 last_of_january 5 (1 ∷ 1 ∷ []) (omega arith)
      (omega arith, (omega arith, (omega arith, tt)))
