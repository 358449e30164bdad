-- ===== src/Fin/Tests.antt =====
-- Runs of the consensus on small inputs, and its theorems at concrete inputs.
mod Agreements
mod Blocks
mod Broadcasts
mod Repetitions
mod Shards
