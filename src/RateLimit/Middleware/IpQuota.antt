-- ===== src/RateLimit/Middleware/IpQuota.antt =====
-- How many requests from one address LimitByIP lets through in a window.
use memberclass_backend_gola.Common.{
  ℕ, ◌+◌, ◌-◌, ◌≤◌, ◌<◌, min, ◌≡◌, refl, ◌∙◌, inl, inr, false, Option, List, [], ◌∷◌, ◌++◌, arith,
  ltb, if◌then◌else◌, Bool-cases, ltb→lt, lt→ltb, length, GoString, is_empty,
}
use memberclass_backend_gola.Common.Int.{half_64}
use memberclass_backend_gola.RateLimit.Cache.{Redis, IsRedis}
use memberclass_backend_gola.RateLimit.Tenant.{api_window}
use memberclass_backend_gola.RateLimit.Ip.{
  ip_limit, ip_key_prefix, ip_check_limit, ip_increment, check_ip-check_limit,
  increment_ip-increment,
}
use memberclass_backend_gola.RateLimit.Counting.{Counted, check_limit-Counted, increment-Counted}
use memberclass_backend_gola.RateLimit.Middleware.{
  next, Headers, IpRequest, get_client_ip, limit_by_ip, set_rate_limit_headers,
}
use memberclass_backend_gola.RateLimit.Middleware.Quota.{is_next}

-- Requests that come from one address, one after the other, at the times given: how many pass.
unfoldable pub count_passed_ip : (r : Redis) → IpRequest → List ℕ → r.State → ℕ × r.State
count_passed_ip r q [] s = (0, s)
count_passed_ip r q (now ∷ times) s =
    let (answer, s') = limit_by_ip r q now [] s in
    let (n, s'') = count_passed_ip r q times s' in ((if is_next answer then 1 else 0) + n, s'')

abbrev pub ip_key : GoString → GoString
ip_key ip = ip_key_prefix ++ ip

module _ (r : Redis) {value : GoString → r.State → Option GoString} (lawful : IsRedis r value)
    (q : IpRequest) (has_ip : is_empty (get_client_ip q) ≡ false) where
  open r use {State}

  limit_by_ip_below :
      (now n : ℕ) (s : State)
      → Counted (value (ip_key (get_client_ip q)) s) n
      → n < ip_limit
      → (s' : State) × (headers : Headers) × (limit_by_ip r q now [] s ≡ (next headers, s'))
        × Counted (value (ip_key (get_client_ip q)) s') (n + 1)
  unfolding limit_by_ip ip_check_limit ip_increment
  limit_by_ip_below now n s c h =
      let key = ip_key (get_client_ip q) in
      let (info, checked, left) =
        check_limit-Counted r lawful key ip_limit api_window now n s c (omega arith) (omega arith)
          (omega arith) in
      let (s', counted, c') = increment-Counted r lawful key api_window n s c (omega arith) in
      let asked = check_ip-check_limit r key ip_limit api_window now s ∙ checked in
      let added = increment_ip-increment r key api_window s ∙ counted in
      (
        s',
        set_rate_limit_headers [] info,
        rw has_ip (rw asked (rw (lt→ltb _ _ h) (rw added refl))),
        c',
      )

  limit_by_ip_at :
      (now n : ℕ) (s : State)
      → Counted (value (ip_key (get_client_ip q)) s) n
      → n < half_64
      → ip_limit ≤ n
      → (is_next (limit_by_ip r q now [] s).0 ≡ false) × ((limit_by_ip r q now [] s).1 ≡ s)
  unfolding limit_by_ip ip_check_limit
  limit_by_ip_at now n s c k h =
      let key = ip_key (get_client_ip q) in
      let (info, checked, left) =
        check_limit-Counted r lawful key ip_limit api_window now n s c (omega arith) (omega arith)
          k in
      let asked = check_ip-check_limit r key ip_limit api_window now s ∙ checked in
      let over : ltb n ip_limit ≡ false = ground arith in
      rw has_ip (rw asked (rw over (refl, refl)))

  -- While Redis answers and no key expires, an address that the middleware can tell, with n requests
  -- counted, gets exactly min k (50 - n) of its next k requests through, and the rest are turned away.
  pub count_passed_ip_quota :
      (times : List ℕ) (n : ℕ) (s : State)
      → Counted (value (ip_key (get_client_ip q)) s) n
      → n < half_64
      → (count_passed_ip r q times s).0 ≡ min (length times) (ip_limit - n)
  unfolding count_passed_ip
  count_passed_ip_quota [] n s c k = omega arith
  count_passed_ip_quota (now ∷ times) n s c k = elim (Bool-cases (ltb n ip_limit)) [
    | inl below ↦
        let (s', headers, step, c') = limit_by_ip_below now n s c (ltb→lt _ _ below) in
        let ih = count_passed_ip_quota times (n + 1) s' c' (ground arith) in
        rw step (ground (arith, ih))
    | inr at ↦
        let (stopped, same) = limit_by_ip_at now n s c k (ground arith) in
        let ih = count_passed_ip_quota times n s c k in rw (stopped, same) (ground (arith, ih))
  ]
