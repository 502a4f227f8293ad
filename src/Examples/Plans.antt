-- ===== src/Examples/Plans.antt =====
-- A strided plan, its transpose, and the transpose of that.
use fvdb_core.Prelude.{◌≡◌, refl, subst, arith, none, some, true, false, [], ◌∷◌, inl}
use fvdb_core.Prelude.Int.{pos}
use fvdb_core.Prelude.Results.{ok}
use fvdb_core.Convolution.Vectors.{vec3}
use fvdb_core.Convolution.Geometry.{
  convolution_geometry, checked_kernel_volume, checked_times, to_int32,
}
use fvdb_core.Convolution.Residues.{
  residue, residues, uncovered_axes, warn_if_incomplete_residue_coverage,
}
use fvdb_core.Prelude.Floor.{floor_mod}
use fvdb_core.Prelude.Sets.{add}
use fvdb_core.Convolution.Policy.{
  ConvolutionTopologyPolicy, ConvolutionTopologyProvenance, resolve_topology_policy,
}
use fvdb_core.Convolution.Coverage.Backend.{
  matmul, Backend, GatherScatterDefaultTopology, IsRulebook, gs_reverse_topology,
}
use fvdb_core.Convolution.Coverage.Report.{output_zero_count, validate_coverage_policy}
use fvdb_core.Convolution.Coverage.Swap.{transposed_backend}
use fvdb_core.Convolution.Compatibility.{transform_compatibility, validate_transform_compatibility}
use fvdb_core.Convolution.Admission.{pair, check_channel_pairs}
use fvdb_core.Convolution.Plan.Types.{ConvolutionPlan}
use fvdb_core.Convolution.Plan.Build.{rulebook_backend, build_backend, identity_matmul_plan}
use fvdb_core.Convolution.Plan.Factories.{admit, general_plan, make_plan, from_grid_batch}
use fvdb_core.Convolution.Plan.Transpose.{
  has_fixed_topology, reverse_pairs, from_plan_transposed, plan_coverage_report,
}
use fvdb_core.Convolution.Plan.Invariant.{IsPlan}
use fvdb_core.Convolution.Plan.Adjoint.Exchange.{
  IsCoherent, from_plan_transposed-twice, has_fixed_topology-transposed,
}
use fvdb_core.Convolution.Plan.Guarantee.{
  forward, exact, Made-IsPlan, IsCovered, from_grid_batch-covers,
}
use fvdb_core.Convolution.Coverage.Degrees.{rulebook}
use mathlib.Core.Option.{some-injective}
use fvdb_core.Examples.Torch.{torch_tensors}
use fvdb_core.Examples.Grids.{toys, vec3i, fine_grid, coarse_grid, plain_options, toy_topology}

-- Kernel 3, stride 2, and a generated target.
abbrev pub down : ConvolutionPlan toys
down = record {
  source_grid = fine_grid;
  target_grid = coarse_grid;
  geometry = record {
    kernel_size = vec3 3 3 3;
    stride = vec3 2 2 2;
    padding_before = vec3 1 1 1;
    padding_after = vec3 1 1 1;
    kernel_volume = 27;
  };
  channel_pairs = pair (pos 8) (pos 16) ∷ [];
  transposed = false;
  backend =
      Backend.gather_scatter (toy_topology false fine_grid coarse_grid (vec3 3 3 3) (vec3 2 2 2));
  transform_compatibility = record {
    fine_grid_count = 1;
    coarse_grid_count = 1;
    same_batch_size = true;
    same_device = true;
    scale_compatible = true;
    registration_integer = true;
    registration_zero = true;
    compatible = true;
    registration_offset = some 0;
  };
  topology_policy = ConvolutionTopologyPolicy.complete;
  topology_provenance = ConvolutionTopologyProvenance.generated;
  coverage_report_cache = record {
    cached_backend =
        Backend.gather_scatter (toy_topology false fine_grid coarse_grid (vec3 3 3 3) (vec3 2 2 2));
    cached_source = fine_grid;
    cached_target = coarse_grid;
  };
  coverage_report_swapped = false;
}

pub down-made :
    (from_grid_batch toys torch_tensors vec3i
      (vec3 3 3 3)
      (vec3 2 2 2)
      fine_grid
      none
      plain_options
      []).0
    ≡ ok down
unfolding from_grid_batch make_plan admit general_plan identity_matmul_plan build_backend
    rulebook_backend convolution_geometry checked_kernel_volume checked_times to_int32
    transform_compatibility validate_transform_compatibility check_channel_pairs
    validate_coverage_policy output_zero_count resolve_topology_policy
    warn_if_incomplete_residue_coverage uncovered_axes residues residue add floor_mod
down-made = refl

-- The transpose.
abbrev up : ConvolutionPlan toys
up = record down {
  source_grid = coarse_grid;
  target_grid = fine_grid;
  channel_pairs = pair (pos 16) (pos 8) ∷ [];
  transposed = true;
  backend =
      Backend.gather_scatter
        (record (toy_topology true fine_grid coarse_grid (vec3 3 3 3) (vec3 2 2 2)) {
          gather_indices = 0 ∷ 0 ∷ 1 ∷ [];
          scatter_indices = 0 ∷ 1 ∷ 2 ∷ [];
          feature_total_voxels = 2;
          output_total_voxels = 3;
        });
  topology_policy = ConvolutionTopologyPolicy.restricted;
  topology_provenance = ConvolutionTopologyProvenance.exact_transpose;
  coverage_report_swapped = true;
}

up-made : from_plan_transposed toys down ≡ ok up
unfolding from_plan_transposed reverse_pairs transposed_backend gs_reverse_topology
    transform_compatibility validate_transform_compatibility
up-made = refl

abbrev down_again : ConvolutionPlan toys
down_again = record down {
  topology_policy = ConvolutionTopologyPolicy.restricted;
  topology_provenance = ConvolutionTopologyProvenance.exact_transpose;
}

down_again-made : from_plan_transposed toys up ≡ ok down_again
unfolding from_plan_transposed reverse_pairs transposed_backend gs_reverse_topology
    transform_compatibility validate_transform_compatibility
down_again-made = refl

Made-IsPlan_example : IsPlan toys up × IsCoherent toys torch_tensors up
Made-IsPlan_example = Made-IsPlan toys torch_tensors vec3i up (
    exact down up (forward (vec3 3 3 3) (vec3 2 2 2) fine_grid none plain_options [] down down-made)
      up-made)

-- The rulebook of the plan is in range and ends in the rows of its target.
down_sound :
    (t : GatherScatterDefaultTopology)
    → rulebook down.backend ≡ some t
    → IsRulebook t × (t.output_total_voxels ≡ toys.total_voxels down.target_grid)
down_sound t e =
    let own : GatherScatterDefaultTopology =
      toy_topology false fine_grid coarse_grid (vec3 3 3 3) (vec3 2 2 2) in
    subst
      (λ (r : GatherScatterDefaultTopology).
        IsRulebook r × (r.output_total_voxels ≡ toys.total_voxels down.target_grid))
      (some-injective own t e)
      (record { gathers = omega arith; scatters = omega arith; paired = refl }, refl)

from_grid_batch-covers_example : IsCovered toys torch_tensors vec3i down 1
from_grid_batch-covers_example =
    from_grid_batch-covers toys torch_tensors vec3i (vec3 3 3 3) (vec3 2 2 2) fine_grid none
      plain_options [] down 1 (inl refl) down-made down_sound (omega arith)

from_plan_transposed-twice_example :
    (down_again.source_grid ≡ down.source_grid)
    × (down_again.target_grid ≡ down.target_grid)
    × (down_again.geometry ≡ down.geometry)
    × (down_again.transposed ≡ down.transposed)
    × (down_again.channel_pairs ≡ down.channel_pairs)
    × (plan_coverage_report toys torch_tensors down_again
        ≡ plan_coverage_report toys torch_tensors down)
from_plan_transposed-twice_example =
    from_plan_transposed-twice toys torch_tensors down up down_again up-made down_again-made

topology_kept :
    (has_fixed_topology toys up ≡ has_fixed_topology toys down)
    × (down.backend ≡ matmul → has_fixed_topology toys down ≡ true)
topology_kept =
    has_fixed_topology-transposed toys down up up-made
      (Made-IsPlan toys torch_tensors vec3i down
        (forward (vec3 3 3 3) (vec3 2 2 2) fine_grid none plain_options [] down down-made)).0
