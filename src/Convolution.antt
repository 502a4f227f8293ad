-- ===== src/Convolution.antt =====
-- fvdb/convolution_plan.py.
pub mod Vectors
pub mod Geometry
pub mod Residues
pub mod Policy
pub mod Coverage
pub mod Natives
pub mod Compatibility
pub mod Admission
pub mod Plan
