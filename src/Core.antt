-- ===== src/Core.antt =====
-- components/foo_out_multiroom_bridge/core: the parts that do not depend on a transport.
pub mod Volume
pub mod SyncClock
pub mod Scheduler
pub mod Engine
pub mod Registry
pub mod Groups
