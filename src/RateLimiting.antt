-- ===== src/RateLimiting.antt =====
-- src/modules/rate-limiting: the clock of the daily and monthly quotas.
pub mod IstTime
