-- ===== src/Mac.antt =====
-- lib/tinymac.c and lib/tinymac.h: the MAC layer.
mod Tests
pub mod Types
pub mod Wire
pub mod Timers
pub mod Registry
pub mod Transmit
pub mod Timeouts
pub mod Client
pub mod Coordinator
pub mod Receive
pub mod Api
pub mod Run
pub mod Invariant
pub mod Handshake
pub mod Lifetime
pub mod Upper
pub mod Heard
pub mod Links
pub mod Delivery
pub mod Unacked
