-- ===== src/Ovpnconf.antt =====
-- internal/ovpnconf/config.go: the server's configuration, its text, and the line diff of two of them.
pub mod Diff
pub mod Script
pub mod Server
pub mod Render
pub mod Directives
pub mod Unbroken
pub mod Rendered
mod Tests
pub mod Sample
mod ConfigTests
