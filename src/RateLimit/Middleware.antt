-- ===== src/RateLimit/Middleware.antt =====
-- internal/application/middlewares/rate_limit/rate_limit_tenant_middleware.go and
-- rate_limit_ip_middleware.go. `next` is an outcome: the request goes on to the next handler with the
-- headers set so far; `respond` is an answer that the middleware writes. Log lines are left out.
mod Answers
pub mod Quota
pub mod IpQuota
unfoldable pub use Answers.*
use memberclass_backend_gola.Common.{
  ℕ, zero, suc, ◌+◌, ◌-◌, ◌*◌, ◌/◌, ◌%◌, ◌^◌, ◌≤◌, ◌<◌, min, String, ◌≡◌, refl, sym, ap, ◌∙◌,
  ◌≡⟨◌⟩◌, ◌∎, ◌≢◌, ◌↔◌, ◌⊎◌, inl, inr, Bool, true, false, not, ◌&&◌, ◌||◌, Option, none, some, List,
  [], ◌∷◌, ◌++◌, map, append-nil, append_assoc, arith, ltb, leb, ◌==◌, if◌then◌else◌, Bool-cases,
  Option-cases, is_some, ==_iff, ltb→lt, lt→ltb, leb→le, le→leb, length, take, drop, replicate, All,
  length-append, length-take, length-drop, take-append-drop, GoString, str, ◌===◌, text_eq_refl,
  text_eq_iff, is_empty, until, split, is_space, trim_left, trim_right, trim_space, to_lower_byte,
  to_lower,
}
use memberclass_backend_gola.Common.Int.{
  ℤ, pos, negsuc, pos_part, neg_part, sub_ℕ, ltb_ℤ, ◌≤ℤ◌, half_64, mod_64, wrap_sub, ◌+64◌, ◌-64◌,
  Fits, wrap_sub-pos, wrap_sub-negsuc,
}
use memberclass_backend_gola.Common.Decimal.{
  format_nat, format_int, parse_int, parse_int-format_int,
}
use memberclass_backend_gola.RateLimit.Cache.{
  GoError, message, not_a_number, Result, ok, err, Redis, cache_get, cache_set, cache_increment,
  cache_delete, cache_exists, cache_ttl, IsRedis,
}
use memberclass_backend_gola.RateLimit.Tenant.{RateLimitInfo, tenant_check_limit, tenant_increment}
use memberclass_backend_gola.RateLimit.Ip.{ip_check_limit, ip_increment}

-- What LimitByTenant reads of a request: the query parameter tenantId, the tenant that an
-- authentication middleware left in the context, and the path.
pub record TenantRequest : Type 0 where
  pub query_tenant : GoString
  pub context_tenant : Option GoString
  pub path : GoString

abbrev pub tenant_of : TenantRequest → Option GoString
tenant_of q = if is_empty q.query_tenant then q.context_tenant else some q.query_tenant

module _ (r : Redis) where
  open r use {State}

  tenant_decided :
      TenantRequest → GoString → Result (Bool × RateLimitInfo) → Headers → State → Outcome × State
  tenant_decided q tenant_id (err e) headers s = (next headers, s)
  tenant_decided q tenant_id (ok (false, info)) headers s =
      (respond (rate_limit_error (set_rate_limit_headers headers info) info), s)
  tenant_decided q tenant_id (ok (true, info)) headers s =
      let (done, s') = tenant_increment r tenant_id q.path s in
      (next (set_rate_limit_headers headers info), s')

  tenant_known : TenantRequest → Option GoString → ℕ → Headers → State → Outcome × State
  unfolding tenant_decided
  tenant_known q none now headers s = (next headers, s)
  tenant_known q (some tenant_id) now headers s =
      let (decision, s') = tenant_check_limit r tenant_id q.path now s in
      tenant_decided q tenant_id decision headers s'

  unfoldable pub limit_by_tenant : TenantRequest → ℕ → Headers → State → Outcome × State
  unfolding tenant_known
  limit_by_tenant q now headers s = tenant_known q (tenant_of q) now headers s

  ip_decided : GoString → Result (Bool × RateLimitInfo) → Headers → State → Outcome × State
  ip_decided ip (err e) headers s = (next headers, s)
  ip_decided ip (ok (false, info)) headers s =
      (respond (rate_limit_error (set_rate_limit_headers headers info) info), s)
  ip_decided ip (ok (true, info)) headers s =
      let (done, s') = ip_increment r ip s in (next (set_rate_limit_headers headers info), s')

  unfoldable pub limit_by_ip : IpRequest → ℕ → Headers → State → Outcome × State
  unfolding ip_decided
  limit_by_ip q now headers s =
      let ip = get_client_ip q in
      let (decision, s') = ip_check_limit r ip now s in
      if is_empty ip then (next headers, s) else ip_decided ip decision headers s'
