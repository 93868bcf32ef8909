-- ===== src/Examples.antt =====
-- The theorems at concrete bundles, stores and routes.
pub mod Data
mod Bytes
mod Ids
mod Flags
mod Store
mod Routes
mod Sending
mod Registering
pub mod Node
mod Reassembling
mod Acking
mod Packets
mod Version7
mod Flows
mod Installing
