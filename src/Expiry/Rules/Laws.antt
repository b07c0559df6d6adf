-- ===== src/Expiry/Rules/Laws.antt =====
-- src/modules/expiry/utils/expiry-rules.utils.ts: the statuses are windows of time before the date
-- of expiry, and time only makes a status worse.
use radha_backend.Prelude.{ℕ, suc, ◌+◌, ◌*◌, ◌≤◌, ◌<◌, ◌≡◌, ◌↔◌, Option, none, some, arith}
use radha_backend.Prelude.Int.{◌-ℤ◌}
use radha_backend.Dates.{ms_per_day}
use radha_backend.Expiry.Rules.{
  ExpiryStatus, green, yellow, red, expired, unknown, Threshold, days_until_expiry,
  calculate_expiry_status,
}

-- The first instant, counted from the reference date, that a threshold of so many days leaves out.
abbrev pub window_end : ℕ → ℕ → ℕ
window_end reference_date days = reference_date + suc days * ms_per_day

-- A batch with a date of expiry is expired exactly when the reference date is past it, red exactly
-- when it is not and the date lies in the red window, yellow exactly when it lies after the red
-- window and in the yellow one, and green exactly when it lies after both.
pub calculate_expiry_status-window :
    (e r : ℕ) (threshold : Threshold)
    → let status = calculate_expiry_status (some e) threshold r in
      let red_end = window_end r threshold.red_days in
      let yellow_end = window_end r threshold.yellow_days in
      ((status ≡ expired) ↔ (e < r))
      × ((status ≡ red) ↔ ((r ≤ e) × (e < red_end)))
      × ((status ≡ yellow) ↔ ((red_end ≤ e) × (e < yellow_end)))
      × ((status ≡ green) ↔ ((red_end ≤ e) × (yellow_end ≤ e)))
unfolding calculate_expiry_status days_until_expiry ◌-ℤ◌
calculate_expiry_status-window e r threshold = (
  ((λ h. ground arith), (λ h. ground arith)),
  ((λ h. ground arith), (λ h. ground arith)),
  ((λ h. ground arith), (λ h. ground arith)),
  ((λ h. ground arith), (λ h. ground arith)),
)

abbrev pub severity : ExpiryStatus → ℕ
severity unknown = 0
severity green = 1
severity yellow = 2
severity red = 3
severity expired = 4

-- Seen at a later time, a batch is never in a milder status, with or without a date of expiry.
pub calculate_expiry_status_mono :
    (e : Option ℕ) (threshold : Threshold) {r s : ℕ}
    → r ≤ s
    → severity (calculate_expiry_status e threshold r)
      ≤ severity (calculate_expiry_status e threshold s)
unfolding calculate_expiry_status days_until_expiry ◌-ℤ◌
calculate_expiry_status_mono none threshold h = omega arith
calculate_expiry_status_mono (some e) threshold h = ground arith
