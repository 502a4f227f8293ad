-- ===== src/Convolution/Plan/Transpose.antt =====
-- `from_plan_transposed` and the property `coverage_report` of fvdb/convolution_plan.py.
use fvdb_core.Prelude.{Bool, not, Option, none, some, List, [], ◌∷◌}
use fvdb_core.Prelude.Results.{Result, ok, raise, type_error, value_error, ◌>>=◌, ◌>>◌}
use fvdb_core.Convolution.Policy.{ConvolutionTopologyPolicy, ConvolutionTopologyProvenance}
use fvdb_core.Convolution.Coverage.Tensors.{IndexTensors}
use fvdb_core.Convolution.Coverage.Backend.{Backend}
use fvdb_core.Convolution.Coverage.Report.{
  ConvolutionCoverageReport, coverage_report, swap_coverage_report,
}
use fvdb_core.Convolution.Coverage.Swap.{transposed_backend}
use fvdb_core.Convolution.Coverage.Cache.Invariant.{answer}
use fvdb_core.Convolution.Natives.{Natives}
use fvdb_core.Convolution.Compatibility.{validate_transform_compatibility}
use fvdb_core.Convolution.Admission.{ChannelPair, pair, other_length}
use fvdb_core.Convolution.Plan.Types.{ConvolutionPlan, CoverageReportCache}
use fvdb_core.Convolution.Plan.Factories.{oriented_compatibility}

-- `tuple((dst, src) for src, dst in channel_pairs)`: a tuple of another length cannot be unpacked.
unfoldable pub reverse_pairs : List ChannelPair → Result (List ChannelPair)
reverse_pairs [] = ok []
reverse_pairs (other_length ∷ pairs) = raise value_error
reverse_pairs (pair a b ∷ pairs) = do reversed ← reverse_pairs pairs; ok (pair b a ∷ reversed)

-- The branches over the class of the backend.
abbrev pub reverse_backend : Backend → Result Backend
reverse_backend b = elim (transposed_backend b) [ none ↦ raise type_error | some b' ↦ ok b' ]

module _ (N : Natives) where
  -- `ConvolutionPlan.from_plan_transposed`
  unfoldable pub from_plan_transposed : ConvolutionPlan N → Result (ConvolutionPlan N)
  from_plan_transposed plan = do
    pairs ← reverse_pairs plan.channel_pairs
    let transposed = not plan.transposed
    let compatibility =
        oriented_compatibility N transposed plan.target_grid plan.source_grid plan.geometry
    validate_transform_compatibility N compatibility
    backend ← reverse_backend plan.backend
    ok (record {
      source_grid = plan.target_grid;
      target_grid = plan.source_grid;
      geometry = plan.geometry;
      channel_pairs = pairs;
      transposed = transposed;
      backend = backend;
      transform_compatibility = compatibility;
      topology_policy = ConvolutionTopologyPolicy.restricted;
      topology_provenance = ConvolutionTopologyProvenance.exact_transpose;
      coverage_report_cache = plan.coverage_report_cache;
      coverage_report_swapped = not plan.coverage_report_swapped;
    })

  -- The property `has_fixed_topology`
  unfoldable pub has_fixed_topology : ConvolutionPlan N → Bool
  has_fixed_topology plan = N.is_same plan.source_grid plan.target_grid

  module _ (T : IndexTensors) where
    open N use {total_voxels}

    -- What the cache of a plan computes.
    abbrev pub cached_report : CoverageReportCache N → Option ConvolutionCoverageReport
    cached_report c =
        coverage_report T c.cached_backend (total_voxels c.cached_source)
          (total_voxels c.cached_target)

    -- The property `coverage_report`: what `get` of the cache returns.
    unfoldable pub plan_coverage_report : ConvolutionPlan N → Option ConvolutionCoverageReport
    plan_coverage_report plan =
        answer (cached_report plan.coverage_report_cache) swap_coverage_report
          plan.coverage_report_swapped
