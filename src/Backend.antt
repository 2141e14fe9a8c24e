-- ===== src/Backend.antt =====
-- functions/datafunction/storage-conf-ssbd-backend.hpp: how a data function writes a file to the
-- block servers and reads it back.
pub mod Directory
pub mod Split
pub mod Coordinator
pub mod Accumulator
pub mod Requests
pub mod Connection
pub mod Replica
pub mod Phase
pub mod WriteRead
use slsfs.Prelude.{ℕ}
