-- ===== src/InetSockets.antt =====
-- day3/16_sock_inet/inet_sockets.cpp: sockets for a host and a service by name.
mod Kernel
mod Connect
mod Passive
mod PassiveLaws
mod Calls
pub mod Main
pub mod Tests
mod MainTests
pub use Kernel.*
pub use Connect.*
pub use Passive.*
