-- ===== src/Fin/BinaryAgreement/Decisions.antt =====
-- The end of a round of `Launch` at two nodes with one coin.
