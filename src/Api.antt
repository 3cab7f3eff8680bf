-- ===== src/Api.antt =====
-- internal/api: the routes of the web API and who gets through to their handlers, the change of
-- the server's configuration, the issue and revocation of certificates, and the hosts file.
pub mod Routes
pub mod Gate
pub mod Admitted
pub mod Inputs
pub mod Hosts
pub mod Certificates
pub mod VpnConfig
mod Tests
