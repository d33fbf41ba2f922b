-- ===== src/Udp.antt =====
-- lib/phy-udp.c: the PHY over UDP multicast, behind the interface of lib/phy.h.
mod Tests
pub mod Crc
pub mod Phy
pub mod Datagrams
