-- ===== src/Si443x.antt =====
-- lib/phy-si443x.c with lib/si443x_regs.h: the driver of the Si443x radios, behind lib/phy.h.
pub mod Regs
pub mod Radio
pub mod Config
pub mod Events
pub mod Send
pub mod Driver
pub mod Views
pub mod Wire
pub mod Sends
pub mod Poll
pub mod Calm
pub mod Hang
pub mod Loads
pub mod Tuning
pub mod Receives
pub mod Returns
mod Tests
