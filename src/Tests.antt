-- ===== src/Tests.antt =====
-- Runs of the model on concrete inputs, and the theorems at inputs that meet their hypotheses.
pub mod Packets
pub mod Sending
pub mod Requests
pub mod Running
pub mod Expiring
pub mod Managing
pub mod Pooling
pub mod Resolving
