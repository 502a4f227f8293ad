-- ===== src/Convolution/Plan/Factories.antt =====
-- `from_grid_batch` and `from_grid_batch_transposed` of fvdb/convolution_plan.py. Their bodies are one
-- sequence of steps, which differs by the direction: the argument `transposed`.
use fvdb_core.Prelude.{Bool, true, false, Option, none, some}
use fvdb_core.Prelude.Results
use fvdb_core.Prelude.Results.{Result, ok, raise, value_error}
use fvdb_core.Convolution.Vectors.{Kernel, map3}
use fvdb_core.Prelude.Int.{pos}
use fvdb_core.Convolution.Geometry.{ConvolutionGeometry, convolution_geometry}
use fvdb_core.Convolution.Policy.{ConvolutionTopologyPolicy, resolve_topology_policy, provenance_of}
use fvdb_core.Convolution.Coverage.Tensors.{IndexTensors}
use fvdb_core.Convolution.Coverage.Report.{validate_coverage_policy}
use fvdb_core.Convolution.Natives.{Natives}
use fvdb_core.Convolution.Compatibility.{
  Compatibility, transform_compatibility, validate_transform_compatibility,
}
use fvdb_core.Convolution.Admission.{
  validate_pred_gather_igemm_admission, validate_pred_gather_igemm_grid_admission,
}
use fvdb_core.Convolution.Plan.Types.{
  BackendName, Options, PositiveVec3i, Planning, ◌>>=◌, ◌>>◌, lift, warn, ConvolutionPlan,
}
use fvdb_core.Convolution.Plan.Build.{build_backend, identity_matmul_plan}

module _ (N : Natives) where
  open N use {GridBatch, conv_grid, conv_transpose_grid}

  -- `source_grid.conv_grid(…)`, `source_grid.conv_transpose_grid(…)`, unless a target is given.
  abbrev pub target_or_generated :
      Bool → GridBatch → Option GridBatch → Kernel → Kernel → Result GridBatch
  target_or_generated transposed source (some target) kernel_size stride = ok target
  target_or_generated true source none kernel_size stride =
      conv_transpose_grid source kernel_size stride
  target_or_generated false source none kernel_size stride = conv_grid source kernel_size stride

  -- The diagnostic takes the fine grid first: the source of a convolution, the target of a transposed
  -- one.
  abbrev pub oriented_compatibility :
      Bool → GridBatch → GridBatch → ConvolutionGeometry → Compatibility N
  oriented_compatibility true source target = transform_compatibility N target source
  oriented_compatibility false source target = transform_compatibility N source target

  -- The first part of a factory, which may already have the plan.
  unfoldable pub admit :
      Bool
      → Kernel
      → Kernel
      → GridBatch
      → Option GridBatch
      → Options
      → ConvolutionTopologyPolicy
      → Result (Option (ConvolutionPlan N))
  admit transposed kernel_size stride source target options policy =
      let identity =
        identity_matmul_plan N kernel_size stride source target options.channel_pairs policy
          (provenance_of policy) transposed in
      let pairs = options.channel_pairs in
      let pred = validate_pred_gather_igemm_admission kernel_size stride pairs transposed in
      let pred_grid = validate_pred_gather_igemm_grid_admission N source target in
      elim options.backend_name [
        | BackendName.dense ↦ raise value_error
        | BackendName.pred_gather_igemm ↦
            Results.◌>>=◌ pred (λ _. Results.◌>>=◌ pred_grid (λ _. ok none))
        | BackendName.default ↦ identity
        | BackendName.gather_scatter ↦ identity
        | BackendName.other_name ↦ ok none
      ]

module _ (N : Natives) (T : IndexTensors) where
  open N use {GridBatch}

  -- The rest of a factory, on the general path.
  unfoldable pub general_plan :
      Bool
      → Kernel
      → Kernel
      → GridBatch
      → Option GridBatch
      → Options
      → ConvolutionTopologyPolicy
      → Planning (ConvolutionPlan N)
  general_plan transposed kernel_size stride source target options policy = do
    target_grid ← lift (target_or_generated N transposed source target kernel_size stride)
    geometry ← lift (convolution_geometry (map3 pos kernel_size) (map3 pos stride))
    let compatibility = oriented_compatibility N transposed source target_grid geometry
    lift (validate_transform_compatibility N compatibility)
    warn geometry options.acknowledge_incomplete_coverage
    backend ← lift (
        build_backend N options.backend_name source target_grid kernel_size stride
          options.channel_pairs transposed)
    lift (validate_coverage_policy T backend policy options.strict_output_coverage)
    lift (
        ok (record {
          source_grid = source;
          target_grid = target_grid;
          geometry = geometry;
          channel_pairs = options.channel_pairs;
          transposed = transposed;
          backend = backend;
          transform_compatibility = compatibility;
          topology_policy = policy;
          topology_provenance = provenance_of policy;
          coverage_report_cache = record {
            cached_backend = backend;
            cached_source = source;
            cached_target = target_grid;
          };
          coverage_report_swapped = false;
        }))

  module _ (V : PositiveVec3i) where
    open V use {Argument, to_Vec3i}

    unfoldable pub make_plan :
        Bool
        → Argument
        → Argument
        → GridBatch
        → Option GridBatch
        → Options
        → Planning (ConvolutionPlan N)
    make_plan transposed kernel_argument stride_argument source target options = do
      kernel_size ← lift (to_Vec3i kernel_argument)
      stride ← lift (to_Vec3i stride_argument)
      policy ← lift (resolve_topology_policy target options.topology_policy)
      early ← lift (admit N transposed kernel_size stride source target options policy)
      elim early [
        | some plan ↦ lift (ok plan)
        | none ↦ general_plan transposed kernel_size stride source target options policy
      ]

    -- `ConvolutionPlan.from_grid_batch`
    unfoldable pub from_grid_batch :
        Argument → Argument → GridBatch → Option GridBatch → Options → Planning (ConvolutionPlan N)
    from_grid_batch = make_plan false

    -- `ConvolutionPlan.from_grid_batch_transposed`
    unfoldable pub from_grid_batch_transposed :
        Argument → Argument → GridBatch → Option GridBatch → Options → Planning (ConvolutionPlan N)
    from_grid_batch_transposed = make_plan true
