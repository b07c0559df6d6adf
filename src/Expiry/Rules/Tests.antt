-- ===== src/Expiry/Rules/Tests.antt =====
-- src/modules/expiry/utils/expiry-rules.utils.ts: tests.
use radha_backend.Prelude.{◌-◌, ◌*◌, ◌≤◌, ◌<◌, ◌≡◌, refl, ◌↔◌, some, arith}
use radha_backend.Dates.{ms_per_day}
use radha_backend.Prelude.Int.{◌-ℤ◌}
use radha_backend.Expiry.Rules.{
  green, yellow, red, expired, Threshold, calculate_expiry_status, days_until_expiry,
}
use radha_backend.Expiry.Rules.Laws.{
  window_end, severity, calculate_expiry_status-window, calculate_expiry_status_mono,
}

abbrev week_and_month : Threshold
week_and_month = record { yellow_days = 30; red_days = 7 }

last_red_day : calculate_expiry_status (some (8 * ms_per_day - 1)) week_and_month 0 ≡ red
unfolding calculate_expiry_status days_until_expiry ◌-ℤ◌
last_red_day = refl

calculate_expiry_status-window_example :
    let status = calculate_expiry_status (some (8 * ms_per_day)) week_and_month 5 in
    let red_end = window_end 5 7 in
    let yellow_end = window_end 5 30 in
    ((status ≡ expired) ↔ (8 * ms_per_day < 5))
    × ((status ≡ red) ↔ ((5 ≤ 8 * ms_per_day) × (8 * ms_per_day < red_end)))
    × ((status ≡ yellow) ↔ ((red_end ≤ 8 * ms_per_day) × (8 * ms_per_day < yellow_end)))
    × ((status ≡ green) ↔ ((red_end ≤ 8 * ms_per_day) × (yellow_end ≤ 8 * ms_per_day)))
calculate_expiry_status-window_example =
    calculate_expiry_status-window (8 * ms_per_day) 5 week_and_month

calculate_expiry_status_mono_example :
    severity (calculate_expiry_status (some 1000) week_and_month 10)
    ≤ severity (calculate_expiry_status (some 1000) week_and_month 2000)
calculate_expiry_status_mono_example =
    calculate_expiry_status_mono (some 1000) week_and_month (omega arith)
