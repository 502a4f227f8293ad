-- ===== src/Convolution/Coverage/Backend.antt =====
-- The backends of fvdb/convolution_plan.py, and the rulebook that they carry:
-- `GatherScatterDefaultTopology` of src/fvdb/detail/ops/convolution/GatherScatterDefault.h.
use fvdb_core.Prelude.{ℕ, ◌≡◌, Bool, not, All, ◌<◌, length}
use fvdb_core.Convolution.Vectors.{Kernel}
use fvdb_core.Convolution.Coverage.Tensors.{Tensor1}

-- One pair of a feature row and an output row for each edge, grouped by tap.
pub record GatherScatterDefaultTopology : Type 0 where
  pub gather_indices : Tensor1
  pub scatter_indices : Tensor1
  pub offsets : Tensor1
  pub feature_total_voxels : ℕ
  pub output_total_voxels : ℕ
  pub kernel_volume : ℕ
  pub total_pairs : ℕ
  pub kernel_size : Kernel
  pub stride : Kernel
  pub is_transposed : Bool

-- `gs_reverse_topology`
unfoldable pub gs_reverse_topology : GatherScatterDefaultTopology → GatherScatterDefaultTopology
gs_reverse_topology t = record t {
  gather_indices = t.scatter_indices;
  scatter_indices = t.gather_indices;
  feature_total_voxels = t.output_total_voxels;
  output_total_voxels = t.feature_total_voxels;
  is_transposed = not t.is_transposed;
}

-- `_MatmulBackend`, `_GatherScatterBackend` and `_PredGatherIGemmBackend`; `unknown` is an object of
-- any other class, for which the code has branches.
pub data Backend : Type 0 where
  matmul : Backend
  gather_scatter : GatherScatterDefaultTopology → Backend
  pred_gather_igemm : GatherScatterDefaultTopology → ℕ → ℕ → Backend
  unknown : Backend

-- Every index of the rulebook names a row, and each edge has both.
pub record IsRulebook (t : GatherScatterDefaultTopology) : Type 0 where
  pub gathers : All (λ i. i < t.feature_total_voxels) t.gather_indices
  pub scatters : All (λ i. i < t.output_total_voxels) t.scatter_indices
  pub paired : length t.gather_indices ≡ length t.scatter_indices
