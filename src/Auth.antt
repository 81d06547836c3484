-- ===== src/Auth.antt =====
-- Authentication: internal/application/middlewares/auth.
pub mod Replies
pub mod Bearer
pub mod Soundness
pub mod ApiKey
pub mod Keys
pub mod Session
pub mod Sessions
mod Examples
