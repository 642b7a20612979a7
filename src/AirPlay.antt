-- ===== src/AirPlay.antt =====
-- transports/airplay: the AirPlay implementation of the transport.
pub mod Timing
pub mod Client
pub mod Bootstrap
pub mod Loopback
pub mod Discovery
pub mod Session
pub mod Transport
