-- ===== src/Tests.antt =====
-- Runs of the theorems at concrete inputs.
mod Codec
mod Client
mod Settings
mod Streams
mod Delivery
mod Sessions
mod Managed
mod Projected
