-- ===== src/RateLimit.antt =====
-- Rate limiting: internal/infrastructure/adapters/cache, internal/infrastructure/adapters/rate_limiter
-- and internal/application/middlewares/rate_limit. The constants are those of
-- internal/domain/constants/rate_limit.go.
pub mod Cache
pub mod Tenant
pub mod Ip
pub mod Upload
mod Examples
pub mod Counting
pub mod Middleware
