-- ===== src/Auth.antt =====
-- The authentication of apps/api/src/auth.
pub mod RateLimiter
pub mod Session
pub mod Password
