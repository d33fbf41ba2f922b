-- ===== src/App.antt =====
-- lib/tinyapp.c and lib/tinyapp.h: the items of application payloads.
mod Tests
pub mod Tables
pub mod Lookup
pub mod Packet
pub mod Entries
pub mod RoundTrip
pub mod Fuel
