-- ===== src/Pbc/Tests.antt =====
-- Runs of the modelled functions on small inputs, and the theorems at concrete inputs.
mod Arrays
mod Powers
mod SmallFields
mod Multinomials
mod Quadratics
mod Polynomials
mod Texts
