-- ===== src/Component/State.antt =====
-- components/foo_out_multiroom_bridge/multiroom_component_state.cpp: the class `MultiroomComponentState`. A method, or a part of
-- one that holds a mutex throughout, is a computation over the state of the component, whose transport and settings
-- are part of it. The toolbar, the console and the other threads of the host have no part in the state.
pub mod Shared
pub mod Control
pub mod Playback
pub mod Choices
pub mod Notices
pub mod EngineCalls
pub mod Setup
pub mod Opening
pub mod Places
pub mod Threads
