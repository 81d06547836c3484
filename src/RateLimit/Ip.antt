-- ===== src/RateLimit/Ip.antt =====
-- internal/infrastructure/adapters/rate_limiter/rate_limiter_ip.go.
use memberclass_backend_gola.Common.{
  ℕ, refl, ap, ◌∙◌, inl, inr, Bool-cases, Option-cases, ◌/◌, ◌===◌, ◌+◌, ◌≡◌, Bool, true, false,
  Option, none, some, ◌++◌, arith, if◌then◌else◌, GoString, str,
}
use memberclass_backend_gola.Common.Int.{ℤ, pos, ltb_ℤ, ◌-64◌}
use memberclass_backend_gola.Common.Decimal.{format_int, parse_int}
use memberclass_backend_gola.RateLimit.Cache.{
  GoError, message, not_a_number, Result, ok, err, Redis, cache_get, cache_set, cache_increment,
  cache_exists, cache_ttl,
}
use memberclass_backend_gola.RateLimit.Tenant.{
  RateLimitInfo, api_window, check_limit, increment, info_at, nil_error, ttl_or, check_reply,
  check_count,
}

abbrev pub ip_key_prefix : GoString
ip_key_prefix = str "rate_limit_api_ip_"

abbrev pub ip_limit : ℕ
ip_limit = 50

-- The decision of checkLimit on a count and a time to live that were read.
unfoldable pub ip_info : ℕ → ℤ → ℕ → ℕ → Bool × RateLimitInfo
ip_info limit count ttl now =
    let remaining = pos limit -64 count in
    let retry_after = ttl / 1000000000 in
    let reset_time = now + ttl in
    if ltb_ℤ count (pos limit)
    then (
      true,
      record {
        limit = limit;
        remaining = if ltb_ℤ remaining (pos 0) then pos 0 else remaining;
        reset = reset_time;
        retry_after = 0;
      },
    )
    else (
      false,
      record {
        limit = limit;
        remaining = if ltb_ℤ remaining (pos 0) then pos 0 else remaining;
        reset = reset_time;
        retry_after = retry_after;
      },
    )

-- An error of TTL is logged, and the window is taken.
abbrev pub ip_ttl : ℕ → Result ℕ → ℕ
ip_ttl window (err e) = window
ip_ttl window (ok t) = t

-- `err.Error() == "redis: nil"`
abbrev pub ip_missing : GoError → Bool
ip_missing (message text) = text === str "redis: nil"
ip_missing (not_a_number text) = false

module _ (r : Redis) where
  open r use {State}

  ip_count :
      GoString → ℕ → ℕ → ℕ → Option ℤ → GoString → State → Result (Bool × RateLimitInfo) × State
  unfolding ip_info
  ip_count key limit window now none text s = (err (not_a_number text), s)
  ip_count key limit window now (some count) text s =
      let (ttl, s') = cache_ttl r key s in (ok (ip_info limit count (ip_ttl window ttl) now), s')

  ip_reply : GoString → ℕ → ℕ → ℕ → Result GoString → State → Result (Bool × RateLimitInfo) × State
  unfolding ip_count
  ip_reply key limit window now (ok text) s = ip_count key limit window now (parse_int text) text s
  ip_reply key limit window now (err e) s =
      if ip_missing e
      then (
        ok (
          true,
          record { limit = limit; remaining = pos limit; reset = now + window; retry_after = 0 },
        ),
        s,
      )
      else (err e, s)

  unfoldable pub check_ip : GoString → ℕ → ℕ → ℕ → State → Result (Bool × RateLimitInfo) × State
  unfolding ip_reply
  check_ip key limit window now s =
      let (current, s') = cache_get r key s in ip_reply key limit window now current s'

  ip_first : GoString → ℕ → Bool → Result ℤ → State → Result (Unit {0}) × State
  ip_first key window known (err e) s = (err e, s)
  ip_first key window true (ok count) s = (ok tt, s)
  ip_first key window false (ok count) s = cache_set r key (format_int count) window s

  ip_up : GoString → ℕ → Result Bool → State → Result (Unit {0}) × State
  unfolding ip_first
  ip_up key window (err e) s = (err e, s)
  ip_up key window (ok known) s =
      let (count, s') = cache_increment r key (pos 1) s in ip_first key window known count s'

  unfoldable pub increment_ip : GoString → ℕ → State → Result (Unit {0}) × State
  unfolding ip_up
  increment_ip key window s = let (known, s') = cache_exists r key s in ip_up key window known s'

  unfoldable pub ip_check_limit : GoString → ℕ → State → Result (Bool × RateLimitInfo) × State
  ip_check_limit ip now s = check_ip (ip_key_prefix ++ ip) ip_limit api_window now s

  unfoldable pub ip_increment : GoString → State → Result (Unit {0}) × State
  ip_increment ip s = increment_ip (ip_key_prefix ++ ip) api_window s

  ip_info-info_at :
      (limit : ℕ) (count : ℤ) (ttl now : ℕ)
      → ip_info limit count ttl now ≡ info_at limit count ttl now
  unfolding ip_info info_at
  ip_info-info_at limit count ttl now = elim (Bool-cases (ltb_ℤ count (pos limit))) [
    | inl below ↦ rw below refl
    | inr over ↦ rw over refl
  ]

  ip_ttl-ttl_or : (window : ℕ) (ttl : Result ℕ) → ip_ttl window ttl ≡ ttl_or window ttl
  ip_ttl-ttl_or window (ok t) = refl
  ip_ttl-ttl_or window (err e) = refl

  ip_missing-nil_error : (e : GoError) → ip_missing e ≡ nil_error e
  ip_missing-nil_error (message text) = refl
  ip_missing-nil_error (not_a_number text) = refl

  ip_reply-check_reply :
      (key : GoString) (limit window now : ℕ) (reply : Result GoString) (s : State)
      → ip_reply key limit window now reply s ≡ check_reply r key limit window now reply s
  unfolding ip_reply ip_count check_reply check_count
  ip_reply-check_reply key limit window now (err e) s = rw (ip_missing-nil_error e) refl
  ip_reply-check_reply key limit window now (ok text) s = elim (Option-cases (parse_int text)) [
    | inl bad ↦ rw bad refl
    | inr (count, good) ↦
        let (ttl, s') = cache_ttl r key s in
        rw good (
          ap (λ info. (ok info, s'))
            (ip_info-info_at limit count (ip_ttl window ttl) now
              ∙ ap (λ t. info_at limit count t now) (ip_ttl-ttl_or window ttl)))
  ]

  -- The limiter by address decides and counts as the limiter by tenant does, key by key.
  pub check_ip-check_limit :
      (key : GoString) (limit window now : ℕ) (s : State)
      → check_ip key limit window now s ≡ check_limit r key limit window now s
  unfolding check_ip check_limit
  check_ip-check_limit key limit window now s =
      let (current, s') = cache_get r key s in ip_reply-check_reply key limit window now current s'

  pub increment_ip-increment :
      (key : GoString) (window : ℕ) (s : State)
      → increment_ip key window s ≡ increment r key window s
  unfolding increment_ip increment
  increment_ip-increment key window s = ground arith
