-- ===== src/Dates.antt =====
-- The part of JavaScript's `Date` that the program uses, in UTC and from 1970 on: an instant is a
-- number of milliseconds, `Date.UTC` and the `getUTC…` readers go through the day's number.
pub mod Days
use radha_backend.Prelude.{
  ℕ, zero, suc, ◌+◌, ◌-◌, ◌*◌, ◌/◌, ◌%◌, Bool, ◌&&◌, ◌||◌, not, List, [], ◌∷◌, ◌==◌, ltb,
  if◌then◌else◌,
}

abbrev pub ms_per_day : ℕ
ms_per_day = 86400000

abbrev pub is_leap : ℕ → Bool
is_leap y = y % 4 == 0 && (not (y % 100 == 0) || y % 400 == 0)

unfoldable pub days_in_year : ℕ → ℕ
days_in_year y = if is_leap y then 366 else 365

abbrev pub february : ℕ → ℕ
february y = if is_leap y then 29 else 28

-- The days of a month, numbered from 0 as `getUTCMonth` does.
unfoldable pub days_in_month : ℕ → ℕ → ℕ
days_in_month y zero = 31
days_in_month y (suc zero) = february y
days_in_month y (suc (suc m)) = if (m % 5) % 2 == 0 then 31 else 30

-- Months are also numbered through, from January 1970.
unfoldable pub month_length : ℕ → ℕ
month_length k = days_in_month (1970 + k / 12) (k % 12)

-- the number of the day on which the month begins
unfoldable pub month_start : ℕ → ℕ
month_start zero = 0
month_start (suc k) = month_start k + month_length k

abbrev pub month_number : ℕ → ℕ → ℕ
month_number y m = (y - 1970) * 12 + m

-- `Date.UTC(y, m, d)` as a day's number. A month past the year's end and a day past the month's,
-- or 0, run over into their neighbours.
unfoldable pub utc_day : ℕ → ℕ → ℕ → ℕ
utc_day y m d = month_start (month_number y m) + d - 1

pub record Civil : Type 0 where
  pub month : ℕ
  pub day : ℕ

-- The month of a day's number and the days gone by in it, searched from the month `k` on.
unfoldable pub civil_from : ℕ → ℕ → ℕ → Civil
civil_from zero k n = record { month = k; day = n }
civil_from (suc fuel) k n =
    let later = civil_from fuel (suc k) (n - month_length k) in
    if ltb n (month_length k) then record { month = k; day = n } else later

-- Every month has a day, so a day's number is fuel enough.
unfoldable pub civil : ℕ → Civil
unfolding civil_from
civil n = civil_from (suc n) 0 n

-- `getUTCFullYear`, `getUTCMonth`, `getUTCDate` and `getUTCDay` of an instant
unfoldable pub full_year : ℕ → ℕ
full_year t = 1970 + (civil (t / ms_per_day)).month / 12

unfoldable pub month : ℕ → ℕ
month t = (civil (t / ms_per_day)).month % 12

unfoldable pub date : ℕ → ℕ
date t = (civil (t / ms_per_day)).day + 1

unfoldable pub week_day : ℕ → ℕ
week_day t = (t / ms_per_day + 4) % 7

-- An instant cut down to whole seconds of its day: the hours, minutes and seconds.
unfoldable pub seconds_of_day : ℕ → ℕ
seconds_of_day t = t % ms_per_day / 1000
