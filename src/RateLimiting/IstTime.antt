-- ===== src/RateLimiting/IstTime.antt =====
-- src/modules/rate-limiting/utils/ist-time.util.ts. The texts `YYYY-MM-DD` and `YYYY-MM` are kept
-- as the numbers that they print.
pub mod Resets
mod Tests
use radha_backend.Prelude.{ℕ, ◌+◌, ◌-◌, ◌*◌, ◌/◌, max}
use radha_backend.Dates.{ms_per_day, utc_day, full_year, month, date}

-- `IST_OFFSET_MINUTES`, `IST_OFFSET_MS`
abbrev pub ist_offset_minutes : ℕ
ist_offset_minutes = 5 * 60 + 30

abbrev pub ist_offset_ms : ℕ
ist_offset_ms = ist_offset_minutes * 60 * 1000

-- `toIstShifted`
abbrev pub to_ist_shifted : ℕ → ℕ
to_ist_shifted now = now + ist_offset_ms

pub record IstDay : Type 0 where
  pub year : ℕ
  pub month : ℕ
  pub date : ℕ

pub record IstMonth : Type 0 where
  pub year : ℕ
  pub month : ℕ

-- `todayIST`
unfoldable pub today_ist : ℕ → IstDay
today_ist now =
    let ist = to_ist_shifted now in
    record { year = full_year ist; month = month ist + 1; date = date ist }

-- `yearMonthIST`
unfoldable pub year_month_ist : ℕ → IstMonth
year_month_ist now =
    let ist = to_ist_shifted now in record { year = full_year ist; month = month ist + 1 }

-- `nextMidnightIstAsUtc`
unfoldable pub next_midnight_ist_as_utc : ℕ → ℕ
next_midnight_ist_as_utc now =
    let ist = to_ist_shifted now in
    utc_day (full_year ist) (month ist) (date ist + 1) * ms_per_day - ist_offset_ms

-- `nextMonthStartIstAsUtc`
unfoldable pub next_month_start_ist_as_utc : ℕ → ℕ
next_month_start_ist_as_utc now =
    let ist = to_ist_shifted now in
    utc_day (full_year ist) (month ist + 1) 1 * ms_per_day - ist_offset_ms

-- `Math.max(1, Math.ceil(diffMs / 1000))` of a target and the present
abbrev pub seconds_until : ℕ → ℕ → ℕ
seconds_until target now = max 1 ((target - now + 999) / 1000)

-- `secondsUntilMidnightIST`
unfoldable pub seconds_until_midnight_ist : ℕ → ℕ
seconds_until_midnight_ist now = seconds_until (next_midnight_ist_as_utc now) now

-- `secondsUntilMonthEndIST`
unfoldable pub seconds_until_month_end_ist : ℕ → ℕ
seconds_until_month_end_ist now = seconds_until (next_month_start_ist_as_utc now) now
