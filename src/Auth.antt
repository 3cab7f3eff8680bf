-- ===== src/Auth.antt =====
-- internal/auth: who may log in, how often they may try, and what each role may do.
pub mod Roles
pub mod Secrets
pub mod Limiter
pub mod Totp
pub mod Passwords
pub mod Login
mod Tests
pub mod World
