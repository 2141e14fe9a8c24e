-- ===== src/Ssbd.antt =====
-- The block server of ssbd/.
pub mod Packet
pub mod Kv
pub mod Key
pub mod Log
pub mod Block
pub mod Node
pub mod Spec
pub mod Protocol
