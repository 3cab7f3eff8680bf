-- ===== src/Upstream.antt =====
-- internal/upstream: which egress a client's traffic takes. `Config` is what the admin sets up,
-- `Tables` the table numbers, `Valid` what a configuration keeps, `Resolving` what a client gets.
pub mod Config
pub mod Tables
pub mod Valid
pub mod Changes
pub mod Resolving
pub mod Rules
pub mod Apply
mod Examples
mod Applied
