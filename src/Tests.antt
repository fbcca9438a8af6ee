-- ===== src/Tests.antt =====
-- The theorems at concrete inputs.
mod Wire
mod Calls
mod Mesh
mod Running
mod Remote
mod Runs
mod Commands
mod Bags
mod Delivery
mod Tasks
mod Registry
mod Speed
mod Advertised
