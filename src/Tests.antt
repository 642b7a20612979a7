-- ===== src/Tests.antt =====
-- Runs of the model on small inputs, and the theorems at such inputs.
mod Groups
mod Core
mod AirPlay
mod Discovery
mod Component
mod State
