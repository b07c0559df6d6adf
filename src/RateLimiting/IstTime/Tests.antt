-- ===== src/RateLimiting/IstTime/Tests.antt =====
-- src/modules/rate-limiting/utils/ist-time.util.ts: tests.
use radha_backend.Prelude.{◌+◌, ◌-◌, ◌*◌, ◌≤◌, ◌≡◌, ◌≢◌}
use radha_backend.RateLimiting.IstTime.{
  today_ist, year_month_ist, seconds_until_midnight_ist, seconds_until_month_end_ist,
}
use radha_backend.RateLimiting.IstTime.Resets.{
  seconds_until_midnight_ist_lem, seconds_until_month_end_ist_lem,
}

seconds_until_midnight_ist_lem_example :
    let ttl = seconds_until_midnight_ist 1000000 in
    (1 ≤ ttl)
    × (ttl ≤ 86400)
    × (today_ist (1000000 + (ttl - 1) * 1000) ≡ today_ist 1000000)
    × (today_ist (1000000 + ttl * 1000) ≢ today_ist 1000000)
seconds_until_midnight_ist_lem_example = seconds_until_midnight_ist_lem 1000000

seconds_until_month_end_ist_lem_example :
    let ttl = seconds_until_month_end_ist 1000000 in
    (1 ≤ ttl)
    × (ttl ≤ 31 * 86400)
    × (year_month_ist (1000000 + (ttl - 1) * 1000) ≡ year_month_ist 1000000)
    × (year_month_ist (1000000 + ttl * 1000) ≢ year_month_ist 1000000)
seconds_until_month_end_ist_lem_example = seconds_until_month_end_ist_lem 1000000
