-- ===== src/Convolution/Plan.antt =====
-- `ConvolutionPlan` of fvdb/convolution_plan.py: the plan, its factories, and its use.
pub mod Types
pub mod Build
pub mod Factories
pub mod Transpose
pub mod Inversion
pub mod Invariant
pub mod Adjoint
pub mod Guarantee
pub mod Execute
