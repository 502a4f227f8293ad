-- ===== src/Convolution/Plan/Build.antt =====
-- `_build_backend` and `_identity_matmul_plan` of fvdb/convolution_plan.py.
use fvdb_core.Prelude.{
  ℕ, Bool, true, false, not, ◌&&◌, ◌||◌, Option, none, some, List, if◌then◌else◌, ◌==◌,
}
use fvdb_core.Prelude.Results.{Result, ok, raise, value_error, raise_if, ◌>>=◌, ◌>>◌}
use fvdb_core.Convolution.Vectors.{Kernel, map3}
use fvdb_core.Prelude.Int.{pos}
use fvdb_core.Convolution.Geometry.{convolution_geometry}
use fvdb_core.Convolution.Policy.{ConvolutionTopologyPolicy, ConvolutionTopologyProvenance}
use fvdb_core.Convolution.Coverage.Backend.{Backend}
use fvdb_core.Convolution.Natives.{Natives}
use fvdb_core.Convolution.Compatibility.{Compatibility}
use fvdb_core.Convolution.Admission.{
  ChannelPair, check_channel_pairs, validate_pred_gather_igemm_admission,
  validate_pred_gather_igemm_grid_admission,
}
use fvdb_core.Convolution.Plan.Types.{BackendName, ConvolutionPlan}

-- `_vec_is_all(v, n)`
abbrev pub vec_is_all : Kernel → ℕ → Bool
vec_is_all v n = v.x == n && (v.y == n && v.z == n)

module _ (N : Natives) where
  open N use {
    GridBatch, grid_count, is_same, all_finite, all_nonzero, origins, voxel_sizes, zeros,
    gs_build_topology, gs_build_transpose_topology,
  }

  -- The part of `_build_backend` for "default" and "gather_scatter".
  unfoldable pub rulebook_backend : GridBatch → GridBatch → Kernel → Kernel → Bool → Result Backend
  rulebook_backend source target kernel_size stride transposed =
      let transpose_topology = gs_build_transpose_topology source target kernel_size stride in
      let topology = gs_build_topology source target kernel_size stride in
      if vec_is_all stride 1 && (vec_is_all kernel_size 1 && is_same source target)
      then ok Backend.matmul
      else (do
        t ← if transposed then transpose_topology else topology
        ok (Backend.gather_scatter t))

  -- `_build_backend`
  unfoldable pub build_backend :
      BackendName
      → GridBatch
      → GridBatch
      → Kernel
      → Kernel
      → List ChannelPair
      → Bool
      → Result Backend
  build_backend BackendName.dense source target kernel_size stride pairs transposed =
      raise value_error
  build_backend BackendName.pred_gather_igemm source target kernel_size stride pairs transposed = do
    check_channel_pairs pairs
    sizes ← validate_pred_gather_igemm_admission kernel_size stride pairs transposed
    validate_pred_gather_igemm_grid_admission N source (some target)
    t ← gs_build_topology source target kernel_size stride
    ok (Backend.pred_gather_igemm t sizes.0 sizes.1)
  build_backend BackendName.other_name source target kernel_size stride pairs transposed = do
    check_channel_pairs pairs
    raise value_error
  build_backend BackendName.default source target kernel_size stride pairs transposed = do
    check_channel_pairs pairs
    rulebook_backend source target kernel_size stride transposed
  build_backend BackendName.gather_scatter source target kernel_size stride pairs transposed = do
    check_channel_pairs pairs
    rulebook_backend source target kernel_size stride transposed

  -- The diagnostic that the identity plan states without computing it.
  abbrev pub identity_compatibility : GridBatch → Compatibility N
  identity_compatibility source = record {
    fine_grid_count = grid_count source;
    coarse_grid_count = grid_count source;
    same_batch_size = true;
    same_device = true;
    scale_compatible = true;
    registration_integer = true;
    registration_zero = true;
    compatible = true;
    registration_offset = some (zeros (grid_count source));
  }

  -- The transform of a grid is finite and has no zero voxel size.
  abbrev pub has_finite_transform : GridBatch → Bool
  has_finite_transform g =
      all_finite (origins g) && (all_finite (voxel_sizes g) && all_nonzero (voxel_sizes g))

  -- The target of an identity plan: the source itself, or a grid that shares its data.
  abbrev pub identity_target : GridBatch → Option GridBatch → Option GridBatch
  identity_target source none = some source
  identity_target source (some target) = if is_same source target then some target else none

  -- The rest of `_identity_matmul_plan`, once the target is known.
  unfoldable pub identity_plan_at :
      Kernel
      → Kernel
      → GridBatch
      → GridBatch
      → List ChannelPair
      → ConvolutionTopologyPolicy
      → ConvolutionTopologyProvenance
      → Bool
      → Result (ConvolutionPlan N)
  identity_plan_at kernel_size stride source target pairs policy provenance transposed = do
    raise_if (not (has_finite_transform source)) value_error
    check_channel_pairs pairs
    geometry ← convolution_geometry (map3 pos kernel_size) (map3 pos stride)
    ok (record {
      source_grid = source;
      target_grid = target;
      geometry = geometry;
      channel_pairs = pairs;
      transposed = transposed;
      backend = Backend.matmul;
      transform_compatibility = identity_compatibility source;
      topology_policy = policy;
      topology_provenance = provenance;
      coverage_report_cache = record {
        cached_backend = Backend.matmul;
        cached_source = source;
        cached_target = target;
      };
      coverage_report_swapped = false;
    })

  -- `_identity_matmul_plan`: no plan where the short circuit does not apply.
  unfoldable pub identity_matmul_plan :
      Kernel
      → Kernel
      → GridBatch
      → Option GridBatch
      → List ChannelPair
      → ConvolutionTopologyPolicy
      → ConvolutionTopologyProvenance
      → Bool
      → Result (Option (ConvolutionPlan N))
  identity_matmul_plan kernel_size stride source target pairs policy provenance transposed =
      if not (vec_is_all kernel_size 1) || not (vec_is_all stride 1)
      then ok none
      else elim (identity_target source target) [
        | none ↦ ok none
        | some t ↦ do
          plan ← identity_plan_at kernel_size stride source t pairs policy provenance transposed
          ok (some plan)
      ]
