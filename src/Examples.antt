-- ===== src/Examples.antt =====
-- Tests of the models, and instances of the theorems at concrete inputs.
mod Torch
mod Grids
mod Plans
mod Coverage
mod Threads
mod Kernels
mod Usage
mod Converters
mod DataRepo
mod TokenPolicy
mod Jagged
mod Modules
mod Oracle
mod Pooling
