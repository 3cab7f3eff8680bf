-- ===== src/Controller.antt =====
-- internal/controller: the worker's supervisor, openvpn's status file, the management client, the control
-- socket, and the rotation of the logs.
pub mod Supervisor
pub mod Status
pub mod Mgmt
pub mod Ops
pub mod Control
pub mod Logs
mod Tests
mod SocketTests
