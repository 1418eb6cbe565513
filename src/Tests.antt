-- ===== src/Tests.antt =====
-- Concrete runs of the modelled code: inputs at which the hypotheses of the theorems hold.
mod Readers
mod Flash
mod Code
mod Runtime
mod Values
mod Modules
mod Compiler
