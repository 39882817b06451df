-- ===== src/Socknet.antt =====
-- day3/socknet: the socket classes of net, and the servers and clients over them.
mod Kernel
mod Base
mod Tcp
mod Retry
mod Sends
mod Whole
mod Internet
mod Datagram
mod Unix
mod Programs
mod UnixPrograms
mod Closing
mod Session
mod Unnamed
mod Messages
mod Paths
mod Tests
pub use Kernel.*
pub use Base.*
pub use Tcp.*
