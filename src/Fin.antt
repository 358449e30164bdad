-- ===== src/Fin.antt =====
-- The consensus of consensus/fin.
pub mod Quorum
pub mod Messages
pub mod Senders
pub mod RbcWithFinish
pub mod BinaryAgreement
pub mod Mvba
mod Tests
pub mod Driver
pub mod Merkle
pub mod ReedSolomon
pub mod RbcByShards
