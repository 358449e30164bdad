-- ===== src/Net/Tests.antt =====
-- Runs of the buffers on small inputs, and the theorems at concrete inputs.
mod Buffers
