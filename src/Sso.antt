-- ===== src/Sso.antt =====
-- Single sign-on: internal/domain/usecases/sso/sso_usecase.go and
-- internal/infrastructure/adapters/repository/sso/sso_repository.go.
pub mod Tokens
pub mod OneTime
pub mod Roundtrip
mod Examples
