-- ===== src/Component.antt =====
-- components/foo_out_multiroom_bridge: the component's own state and what it stores.
pub mod Fields
pub mod OutputState
pub mod Pairing
pub mod Output
pub mod State
