-- ===== src/RateLimit/Counting.antt =====
-- What a limiter reports for a key, and how it counts, over a Redis that answers.
use memberclass_backend_gola.Common.{
  ◌===◌, ℕ, ◌+◌, ◌-◌, ◌<◌, ◌≡◌, refl, inl, inr, Option, none, some, arith, ltb, ◌==◌, if◌then◌else◌,
  Bool-cases, GoString, ◌===◌,
}
use memberclass_backend_gola.Common.Int.{pos, half_64, -64_pos, -64_pos, -64_negsuc, -64_negsuc}
use memberclass_backend_gola.Common.Decimal.{format_int, parse_int-format_int}
use memberclass_backend_gola.RateLimit.Cache.{
  ok, Redis, cache_get, cache_set, cache_increment, cache_exists, cache_ttl, IsRedis, not_negative,
}
use memberclass_backend_gola.RateLimit.Tenant.{
  RateLimitInfo, ttl_or, info_at, check_limit, increment,
}

-- The key holds the number n of requests counted so far: no key for none.
abbrev pub Counted : Option GoString → ℕ → Type 0
Counted v n = v ≡ (if n == 0 then none else some (format_int (pos n)))

-- The decision on a count between 0 and the limit and beyond.
pub info_at_lem :
    (limit n ttl now : ℕ)
    → limit < half_64
    → n < half_64
    → ((info_at limit (pos n) ttl now).0 ≡ ltb n limit)
      × ((info_at limit (pos n) ttl now).1.remaining ≡ pos (limit - n))
unfolding info_at
info_at_lem limit n ttl now h k = ground (arith, -64_pos limit n, -64_negsuc limit n)

module _ (r : Redis) {value : GoString → r.State → Option GoString} (lawful : IsRedis r value) where
  open r use {State}

  -- Checking changes nothing, reports what is left and allows while the count is below the limit.
  pub check_limit-Counted :
      (key : GoString) (limit window now n : ℕ) (s : State)
      → Counted (value key s) n
      → 0 < limit
      → limit < half_64
      → n < half_64
      → (info : RateLimitInfo) × (check_limit r key limit window now s
          ≡ (ok (ltb n limit, info), s))
        × (info.remaining ≡ pos (limit - n))
  unfolding check_limit cache_get cache_ttl ◌===◌
  check_limit-Counted key limit window now n s c pos_limit h k = elim (Bool-cases (n == 0)) [
    | inl fresh ↦
        let missing : value key s ≡ none = ground arith in
        (
          record { limit = limit; remaining = pos limit; reset = now + window; retry_after = 0 },
          rw (lawful.get_missing key s missing) (ground arith),
          ground arith,
        )
    | inr counted ↦
        let present : value key s ≡ some (format_int (pos n)) = ground arith in
        let (t, ttl) = lawful.ttl_lem key s in
        (
          (info_at limit (pos n) (ttl_or window (not_negative (ok t))) now).1,
          rw (lawful.get_present key _ s present) (
              rw (parse_int-format_int (pos n) (omega arith)) (
                rw ttl (
                  rw (← (info_at_lem limit n (ttl_or window (not_negative (ok t))) now h k).0)
                    refl))),
          (info_at_lem limit n (ttl_or window (not_negative (ok t))) now h k).1,
        )
  ]

  -- Counting a request adds one to what the key holds, from none at all on.
  pub increment-Counted :
      (key : GoString) (window n : ℕ) (s : State)
      → Counted (value key s) n
      → n + 1 < half_64
      → (s' : State) × (increment r key window s ≡ (ok tt, s')) × Counted (value key s') (n + 1)
  unfolding increment cache_exists cache_increment cache_set
  increment-Counted key window n s c h = elim (Bool-cases (n == 0)) [
    | inl fresh ↦
        let missing : value key s ≡ none = ground arith in
        let (s1, added, v1) = lawful.incr_missing key (pos 1) s missing in
        let (s2, stored, v2) = lawful.set_lem key (format_int (pos 1)) window s1 in
        (s2, rw (lawful.exists_lem key s, missing, added, stored) refl, ground arith)
    | inr counted ↦
        let present : value key s ≡ some (format_int (pos n)) = ground arith in
        let (s1, added, v1) = lawful.incr_present key n 1 s present h in
        (s1, rw (lawful.exists_lem key s, present, added) refl, ground arith)
  ]
