-- ===== src/Tests.antt =====
-- Runs of the models at concrete inputs, over small instances of what they take as parameters.
pub mod Store
pub mod Reconciles
pub mod Rounds
pub mod Effects
pub mod Contested
pub mod Copied
pub mod Watches
pub mod Routes
pub mod Insertion
pub mod Paths
pub mod Memory
pub mod Loads
pub mod Agents
pub mod Packets
pub mod Starts
pub mod Registered
pub mod Uncommented
