-- ===== src/Store.antt =====
-- internal/store: what ovcp keeps in SQLite. Each table of schema.sql is a list of rows, newest first,
-- and each method the statements that it runs, with the constraints and triggers of the schema. A
-- statement fails by a constraint only: a disk that fails is left out. Times are Unix seconds.
pub mod Names
pub mod Certs
pub mod Totp
pub mod Users
pub mod Stats
mod Tests
mod StatsTests
