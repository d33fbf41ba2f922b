-- ===== src/Mqttsn.antt =====
-- lib/mqttsn-client.c, lib/mqttsn-client.h and lib/mqttsn.h: the MQTT-SN client.
mod Tests
pub mod Types
pub mod Client
pub mod Handler
pub mod Retries
pub mod Registration
pub mod Connects
pub mod Publish
