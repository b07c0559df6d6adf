-- ===== src/Expiry/Rules.antt =====
-- src/modules/expiry/utils/expiry-rules.utils.ts. Instants are milliseconds, thresholds whole days.
pub mod Laws
mod Tests
use radha_backend.Prelude.{ℕ, ◌/◌, Option, none, some, if◌then◌else◌}
use radha_backend.Prelude.Int.{ℤ, pos, negsuc, ◌-ℤ◌, ltb_ℤ, leb_ℤ}
use radha_backend.Dates.{ms_per_day}

-- `ExpiryStatus`
pub data ExpiryStatus : Type 0 where
  green yellow red expired unknown : ExpiryStatus

pub data Color : Type 0 where
  green_color yellow_color red_color gray_color : Color

-- `ThresholdLike`
pub record Threshold : Type 0 where
  pub yellow_days : ℕ
  pub red_days : ℕ

-- `Math.floor(ms / MS_PER_DAY)`
abbrev pub floor_days : ℤ → ℤ
floor_days (pos ms) = pos (ms / ms_per_day)
floor_days (negsuc ms) = negsuc (ms / ms_per_day)

-- `daysUntilExpiry`
unfoldable pub days_until_expiry : Option ℕ → ℕ → Option ℤ
days_until_expiry none reference_date = none
days_until_expiry (some expiry_date) reference_date =
    some (floor_days (pos expiry_date -ℤ pos reference_date))

-- The chain of tests on the number of days.
abbrev pub status_of_days : Option ℤ → Threshold → ExpiryStatus
status_of_days none threshold = unknown
status_of_days (some days) threshold =
    if ltb_ℤ days (pos 0)
    then expired
    else if leb_ℤ days (pos threshold.red_days)
    then red
    else if leb_ℤ days (pos threshold.yellow_days)
    then yellow
    else green

-- `calculateExpiryStatus`
unfoldable pub calculate_expiry_status : Option ℕ → Threshold → ℕ → ExpiryStatus
calculate_expiry_status expiry_date threshold reference_date =
    status_of_days (days_until_expiry expiry_date reference_date) threshold

-- `statusColor`
unfoldable pub status_color : ExpiryStatus → Color
status_color green = green_color
status_color yellow = yellow_color
status_color red = red_color
status_color expired = red_color
status_color unknown = gray_color
