-- ===== src/RateLimit/Tenant.antt =====
-- internal/infrastructure/adapters/rate_limiter/rate_limiter_tenant.go. The time of the call is an
-- argument, in nanoseconds; log lines are left out.
use memberclass_backend_gola.Common.{
  ℕ, ◌+◌, ◌/◌, Bool, true, false, Option, none, some, ◌++◌, if◌then◌else◌, GoString, str, ◌===◌,
}
use memberclass_backend_gola.Common.Int.{ℤ, pos, ltb_ℤ, ◌-64◌}
use memberclass_backend_gola.Common.Decimal.{format_int, parse_int}
use memberclass_backend_gola.RateLimit.Cache.{
  GoError, message, not_a_number, Result, ok, err, Redis, cache_get, cache_set, cache_increment,
  cache_exists, cache_ttl,
}

-- domain/constants/rate_limit.go
abbrev pub tenant_key_prefix : GoString
tenant_key_prefix = str "rate_limit_api_tenant_"

abbrev pub tenant_limit : ℕ
tenant_limit = 50

-- One minute.
abbrev pub api_window : ℕ
api_window = 60000000000

pub record RateLimitInfo : Type 0 where
  pub limit : ℕ
  pub remaining : ℤ
  pub reset : ℕ
  pub retry_after : ℕ

abbrev pub nil_error : GoError → Bool
nil_error (message text) = text === str "redis: nil"
nil_error (not_a_number text) = false

-- A time to live that cannot be read counts as a whole window.
abbrev pub ttl_or : ℕ → Result ℕ → ℕ
ttl_or window (ok t) = t
ttl_or window (err e) = window

-- The decision on a count that was read. `int(ttl.Seconds())` drops the fraction.
unfoldable pub info_at : ℕ → ℤ → ℕ → ℕ → Bool × RateLimitInfo
info_at limit count ttl now =
    let left = pos limit -64 count in
    let allowed = ltb_ℤ count (pos limit) in
    (
      allowed,
      record {
        limit = limit;
        remaining = if ltb_ℤ left (pos 0) then pos 0 else left;
        reset = now + ttl;
        retry_after = if allowed then 0 else ttl / 1000000000;
      },
    )

abbrev pub tenant_key : GoString → GoString → GoString
tenant_key tenant_id endpoint = tenant_key_prefix ++ (tenant_id ++ (str ":" ++ endpoint))

module _ (r : Redis) where
  open r use {State}

  unfoldable pub check_count :
      GoString → ℕ → ℕ → ℕ → Option ℤ → GoString → State → Result (Bool × RateLimitInfo) × State
  check_count key limit window now none text s = (err (not_a_number text), s)
  check_count key limit window now (some count) text s =
      let (ttl, s') = cache_ttl r key s in (ok (info_at limit count (ttl_or window ttl) now), s')

  unfoldable pub check_reply :
      GoString → ℕ → ℕ → ℕ → Result GoString → State → Result (Bool × RateLimitInfo) × State
  unfolding check_count
  check_reply key limit window now (ok text) s =
      check_count key limit window now (parse_int text) text s
  check_reply key limit window now (err e) s =
      if nil_error e
      then (
        ok (
          true,
          record { limit = limit; remaining = pos limit; reset = now + window; retry_after = 0 },
        ),
        s,
      )
      else (err e, s)

  unfoldable pub check_limit : GoString → ℕ → ℕ → ℕ → State → Result (Bool × RateLimitInfo) × State
  unfolding check_reply
  check_limit key limit window now s =
      let (current, s') = cache_get r key s in check_reply key limit window now current s'

  store_first : GoString → ℕ → Bool → Result ℤ → State → Result (Unit {0}) × State
  store_first key window known (err e) s = (err e, s)
  store_first key window true (ok count) s = (ok tt, s)
  store_first key window false (ok count) s = cache_set r key (format_int count) window s

  count_up : GoString → ℕ → Result Bool → State → Result (Unit {0}) × State
  unfolding store_first
  count_up key window (err e) s = (err e, s)
  count_up key window (ok known) s =
      let (count, s') = cache_increment r key (pos 1) s in store_first key window known count s'

  unfoldable pub increment : GoString → ℕ → State → Result (Unit {0}) × State
  unfolding count_up
  increment key window s = let (known, s') = cache_exists r key s in count_up key window known s'

  unfoldable pub tenant_check_limit :
      GoString → GoString → ℕ → State → Result (Bool × RateLimitInfo) × State
  tenant_check_limit tenant_id endpoint now s =
      check_limit (tenant_key tenant_id endpoint) tenant_limit api_window now s

  unfoldable pub tenant_increment : GoString → GoString → State → Result (Unit {0}) × State
  tenant_increment tenant_id endpoint s = increment (tenant_key tenant_id endpoint) api_window s
