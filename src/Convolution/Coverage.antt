-- ===== src/Convolution/Coverage.antt =====
-- The rulebook's degree diagnostics of fvdb/convolution_plan.py.
pub mod Tensors
pub mod Backend
pub mod Report
pub mod Counting
pub mod Degrees
pub mod Rows
pub mod Swap
pub mod Cache
