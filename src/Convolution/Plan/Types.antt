-- ===== src/Convolution/Plan/Types.antt =====
-- The plan itself, the arguments of its factories, and the effects that a factory has: it may raise,
-- and it adds to the process-wide set of geometries that have been warned of.
use fvdb_core.Prelude.{◌≡◌, Bool, List, ◌<◌}
use fvdb_core.Prelude.Results.{Result, ok, raise}
use fvdb_core.Convolution.Vectors.{Kernel, All3}
use fvdb_core.Convolution.Geometry.{ConvolutionGeometry}
use fvdb_core.Convolution.Residues.{GeometryKey, warn_if_incomplete_residue_coverage}
use fvdb_core.Convolution.Policy.{
  ConvolutionTopologyPolicy, ConvolutionTopologyProvenance, PolicyArgument,
}
use fvdb_core.Convolution.Coverage.Backend.{Backend}
use fvdb_core.Convolution.Natives.{Natives}
use fvdb_core.Convolution.Compatibility.{Compatibility}
use fvdb_core.Convolution.Admission.{ChannelPair}

-- `expert_config.get("backend", "default")`
pub data BackendName : Type 0 where
  default dense gather_scatter pred_gather_igemm other_name : BackendName

-- The keyword arguments of a factory.
pub record Options : Type 0 where
  pub backend_name : BackendName
  pub channel_pairs : List ChannelPair
  pub topology_policy : PolicyArgument
  pub strict_output_coverage : Bool
  pub acknowledge_incomplete_coverage : Bool

-- `to_Vec3i(value, value_constraint=ValueConstraint.POSITIVE)` of fvdb/types.py, as the plan uses it.
pub record PositiveVec3i : Type 1 where
  pub Argument : Type 0
  pub to_Vec3i : Argument → Result Kernel
  pub positive : (a : Argument) (v : Kernel) → to_Vec3i a ≡ ok v → All3 (λ n. 0 < n) v

-- A factory's call, with the set of geometries that have been warned of.
abbrev pub Planning : Type 0 → Type 0
Planning A = List GeometryKey → Result A × List GeometryKey

-- Goes on with the value of a step, or stops at its exception.
abbrev pub proceed : {A B : Type 0} → Result A → (A → Planning B) → Planning B
proceed (ok a) f seen = f a seen
proceed (raise e) f seen = (raise e, seen)

infixl 5 ◌>>=◌ ◌>>◌
abbrev pub ◌>>=◌ : {A B : Type 0} → Planning A → (A → Planning B) → Planning B
◌>>=◌ m f seen = let (r, seen') = m seen in proceed r f seen'

abbrev pub ◌>>◌ : {B : Type 0} → Planning (Unit {0}) → Planning B → Planning B
m >> k = m >>= λ _. k

-- A call that leaves the set alone.
abbrev pub lift : {A : Type 0} → Result A → Planning A
lift r seen = (r, seen)

abbrev pub warn : ConvolutionGeometry → Bool → Planning (Unit {0})
warn geometry acknowledge seen =
    (ok tt, (warn_if_incomplete_residue_coverage geometry acknowledge seen).0)

module _ (N : Natives) where
  open N use {GridBatch}

  -- The arguments of `_CoverageReportCache`, from which it computes its report.
  pub record CoverageReportCache : Type 0 where
    pub cached_backend : Backend
    pub cached_source : GridBatch
    pub cached_target : GridBatch

  pub record ConvolutionPlan : Type 0 where
    pub source_grid : GridBatch
    pub target_grid : GridBatch
    pub geometry : ConvolutionGeometry
    pub channel_pairs : List ChannelPair
    pub transposed : Bool
    pub backend : Backend
    pub transform_compatibility : Compatibility N
    pub topology_policy : ConvolutionTopologyPolicy
    pub topology_provenance : ConvolutionTopologyProvenance
    pub coverage_report_cache : CoverageReportCache
    pub coverage_report_swapped : Bool
