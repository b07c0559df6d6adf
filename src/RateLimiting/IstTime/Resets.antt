-- ===== src/RateLimiting/IstTime/Resets.antt =====
-- src/modules/rate-limiting/utils/ist-time.util.ts: the time to live of a counter ends when the
-- day, or the month, that its key names has passed, and not a second before.
use radha_backend.Prelude.{
  ℕ, suc, ◌+◌, ◌-◌, ◌*◌, ◌/◌, ◌%◌, ◌≤◌, ◌<◌, ◌≡◌, ◌≢◌, refl, ap, ◌∙◌, arith,
}
use radha_backend.Dates.{
  ms_per_day, month_length, month_start, month_number, utc_day, full_year, month, date, civil,
}
use radha_backend.Dates.Days.{month_length_bounds, civil_lem, civil-month_start}
use radha_backend.RateLimiting.IstTime.{
  ist_offset_ms, to_ist_shifted, today_ist, year_month_ist, next_midnight_ist_as_utc,
  next_month_start_ist_as_utc, seconds_until_midnight_ist, seconds_until_month_end_ist,
}

-- The number of the day in India.
ist_day : ℕ → ℕ
ist_day now = to_ist_shifted now / ms_per_day

ist_month : ℕ → ℕ
ist_month now = (civil (ist_day now)).month

next_midnight_lem :
    (now : ℕ) → next_midnight_ist_as_utc now ≡ suc (ist_day now) * ms_per_day - ist_offset_ms
unfolding next_midnight_ist_as_utc utc_day full_year month date ist_day
next_midnight_lem now =
    let day = to_ist_shifted now / ms_per_day in
    let whole : month_number (1970 + (civil day).month / 12) ((civil day).month % 12)
        ≡ (civil day).month =
      omega arith in
    let (number, inside) = civil_lem day in rw whole (omega (arith, number))

today_ist-day : (a b : ℕ) → today_ist a ≡ today_ist b → ist_day a ≡ ist_day b
unfolding today_ist full_year month date ist_day
today_ist-day a b h =
    let (number_a, _) = civil_lem (to_ist_shifted a / ms_per_day) in
    let (number_b, _) = civil_lem (to_ist_shifted b / ms_per_day) in
    let years = ap (λ d. d.year) h in
    let months = ap (λ d. d.month) h in
    let dates = ap (λ d. d.date) h in
    let same : (civil (to_ist_shifted a / ms_per_day)).month
        ≡ (civil (to_ist_shifted b / ms_per_day)).month =
      omega (arith, years, months) in
    omega (arith, number_a, number_b, dates, ap month_start same)

today_ist-same : (a b : ℕ) → ist_day a ≡ ist_day b → today_ist a ≡ today_ist b
unfolding today_ist full_year month date ist_day
today_ist-same a b h = rw h refl

-- The daily counter's time to live is between one second and a day. A second before it ends it is
-- still the same day in India, and when it ends it no longer is.
pub seconds_until_midnight_ist_lem :
    (now : ℕ)
    → let ttl = seconds_until_midnight_ist now in
      (1 ≤ ttl)
      × (ttl ≤ 86400)
      × (today_ist (now + (ttl - 1) * 1000) ≡ today_ist now)
      × (today_ist (now + ttl * 1000) ≢ today_ist now)
unfolding seconds_until_midnight_ist ist_day
seconds_until_midnight_ist_lem now =
    let target = next_midnight_lem now in
    (
      omega arith,
      omega (arith, target),
      today_ist-same _ now (omega (arith, target)),
      (λ h. omega (arith, target, today_ist-day _ now h)),
    )

next_month_start_lem :
    (now : ℕ)
    → next_month_start_ist_as_utc now
      ≡ month_start (suc (ist_month now)) * ms_per_day - ist_offset_ms
unfolding next_month_start_ist_as_utc utc_day full_year month ist_month ist_day
next_month_start_lem now =
    let k = (civil (to_ist_shifted now / ms_per_day)).month in
    let after : month_number (1970 + k / 12) (k % 12 + 1) ≡ suc k = omega arith in
    rw after (omega arith)

year_month_ist-month : (a b : ℕ) → year_month_ist a ≡ year_month_ist b → ist_month a ≡ ist_month b
unfolding year_month_ist full_year month ist_month ist_day
year_month_ist-month a b h =
    let years = ap (λ d. d.year) h in
    let months = ap (λ d. d.month) h in omega (arith, years, months)

year_month_ist-same : (a b : ℕ) → ist_month a ≡ ist_month b → year_month_ist a ≡ year_month_ist b
unfolding year_month_ist full_year month ist_month ist_day
year_month_ist-same a b h = rw h refl

-- The month of a time that lies on a given day of it.
ist_month-start :
    (now k d : ℕ) → d < month_length k → ist_day now ≡ month_start k + d → ist_month now ≡ k
unfolding ist_month
ist_month-start now k d h e = ap (λ n. (civil n).month) e ∙ (civil-month_start k d h).0

-- The monthly counter's time to live is between one second and 31 days. A second before it ends it
-- is still the same month in India, and when it ends it no longer is.
pub seconds_until_month_end_ist_lem :
    (now : ℕ)
    → let ttl = seconds_until_month_end_ist now in
      (1 ≤ ttl)
      × (ttl ≤ 31 * 86400)
      × (year_month_ist (now + (ttl - 1) * 1000) ≡ year_month_ist now)
      × (year_month_ist (now + ttl * 1000) ≢ year_month_ist now)
unfolding seconds_until_month_end_ist ist_day ist_month month_start
seconds_until_month_end_ist_lem now =
    let target = next_month_start_lem now in
    let k = ist_month now in
    let long = month_length_bounds k in
    let next_long = month_length_bounds (suc k) in
    let (number, inside) = civil_lem (ist_day now) in
    let ttl = seconds_until_month_end_ist now in
    let before = now + (ttl - 1) * 1000 in
    let after = now + ttl * 1000 in
    (
      omega arith,
      omega (arith, target, number, inside, long),
      year_month_ist-same before now (
          ist_month-start before k (ist_day before - month_start k)
            (omega (arith, target, number, inside)) (omega (arith, target, number, inside))),
      (λ h. omega (
        arith,
        ist_month-start after (suc k) 0 (omega (arith, next_long))
            (omega (arith, target, number, inside)),
        year_month_ist-month after now h,
      )),
    )
