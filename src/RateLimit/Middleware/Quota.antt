-- ===== src/RateLimit/Middleware/Quota.antt =====
-- How many requests of one tenant to one path LimitByTenant lets through in a window.
use memberclass_backend_gola.Common.{ℕ, ◌+◌, Bool, true, false, List, [], ◌∷◌, if◌then◌else◌}
use memberclass_backend_gola.RateLimit.Cache.{Redis}
use memberclass_backend_gola.RateLimit.Middleware.{
  Outcome, next, respond, TenantRequest, limit_by_tenant,
}

abbrev pub is_next : Outcome → Bool
is_next (next _) = true
is_next (respond _) = false

-- Requests of one tenant to one path, one after the other, at the times given: how many pass.
unfoldable pub count_passed : (r : Redis) → TenantRequest → List ℕ → r.State → ℕ × r.State
count_passed r q [] s = (0, s)
count_passed r q (now ∷ times) s =
    let (answer, s') = limit_by_tenant r q now [] s in
    let (n, s'') = count_passed r q times s' in ((if is_next answer then 1 else 0) + n, s'')
