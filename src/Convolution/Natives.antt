-- ===== src/Convolution/Natives.antt =====
-- What fvdb/convolution_plan.py calls and does not implement: torch's arithmetic on the
-- double-precision transform tensors, grids and their native data, and the native rulebook builders.
-- They are a parameter of the model, with what the code relies on.
use fvdb_core.Prelude.{ℕ, ◌≡◌, Bool, true}
use fvdb_core.Prelude.Results.{Result}
use fvdb_core.Convolution.Vectors.{Kernel}
use fvdb_core.Convolution.Coverage.Backend.{GatherScatterDefaultTopology}

pub record Natives : Type 1 where
  -- Tensors of floats, and torch's operations on them. `close` is `torch.allclose` with the module's
  -- tolerances; `stride_like s t` is `torch.tensor(s)` with the dtype and device of `t`.
  pub Tensor : Type 0
  pub mul : Tensor → Tensor → Tensor
  pub sub : Tensor → Tensor → Tensor
  pub div : Tensor → Tensor → Tensor
  pub round : Tensor → Tensor
  pub zeros_like : Tensor → Tensor
  pub stride_like : Kernel → Tensor → Tensor
  pub close : Tensor → Tensor → Bool
  pub all_finite : Tensor → Bool
  pub all_nonzero : Tensor → Bool
  -- `torch.zeros((n, 3), dtype=torch.float64)`
  pub zeros : ℕ → Tensor
  -- Grids, and the metadata on their shared `GridBatchData`.
  pub GridBatch : Type 0
  pub Device : Type 0
  pub grid_count : GridBatch → ℕ
  pub total_voxels : GridBatch → ℕ
  pub device : GridBatch → Device
  pub device_eq : Device → Device → Bool
  pub is_cuda : Device → Bool
  pub voxel_sizes : GridBatch → Tensor
  pub origins : GridBatch → Tensor
  pub is_same : GridBatch → GridBatch → Bool
  pub conv_grid : GridBatch → Kernel → Kernel → Result GridBatch
  pub conv_transpose_grid : GridBatch → Kernel → Kernel → Result GridBatch
  -- The rulebook builders, from the source grid to the target grid.
  pub gs_build_topology :
      GridBatch → GridBatch → Kernel → Kernel → Result GatherScatterDefaultTopology
  pub gs_build_transpose_topology :
      GridBatch → GridBatch → Kernel → Kernel → Result GatherScatterDefaultTopology
  -- `is_same` compares the identity of the native data.
  pub is_same_refl : (g : GridBatch) → is_same g g ≡ true
  pub is_same_sym : (g h : GridBatch) → is_same g h ≡ is_same h g
