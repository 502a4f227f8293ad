-- ===== src/Examples/Kernels.antt =====
-- Geometries, residues, admissions, diagnostics and relations at small sizes.
use fvdb_core.Prelude.{
  ℕ, ◌-◌, ◌*◌, ◌/◌, ◌≡◌, ◌≢◌, ◌↔◌, ◌⊎◌, ◌≤◌, refl, some, false, List, [], ◌∷◌, arith, length,
  if◌then◌else◌, ◌||◌, All,
}
use fvdb_core.Prelude.Int.{pos, negsuc}
use fvdb_core.Prelude.Results.{ok, raise, runtime_error, value_error}
use fvdb_core.Convolution.Vectors.{vec3, map3, Coord, Kernel}
use fvdb_core.Convolution.Geometry.{
  ConvolutionGeometry, IsGeometry, convolution_geometry, checked_kernel_volume, checked_times,
  to_int32, convolution_geometry-IsGeometry,
}
use fvdb_core.Convolution.Residues.{
  residues, uncovered_axes, warned, warn_if_incomplete_residue_coverage,
}
use fvdb_core.Convolution.Residues.Count.{length-residues}
use fvdb_core.Convolution.Residues.Coverage.{IsReached, uncovered_axes-nil_iff}
use fvdb_core.Convolution.Residues.Once.{key_of, warn-axes, warnings_for, warnings_for-le_one}
use fvdb_core.Convolution.Policy.{
  restricted, omitted, policy, policy_for, resolve_topology_policy, resolve_topology_policy_iff,
}
use fvdb_core.Convolution.Compatibility.{
  transform_compatibility, validate_transform_compatibility, AreRegistered,
  validate_transform_compatibility_iff, validate_transform_compatibility-ne_runtime_error,
}
use fvdb_core.Convolution.Admission.{
  ChannelPair, pair, IsPositivePair, IsBlockedPair, check_channel_pairs, check_channel_pairs_iff,
  validate_pred_gather_igemm_admission, validate_pred_gather_igemm_admission_iff,
}
use fvdb_core.Oracle.Relation.{ConvolutionRelation, fine_from_coarse, coarse_from_fine}
use fvdb_core.Oracle.RoundTrip.{coarse_from_fine_iff}
use fvdb_core.Examples.Grids.{toys, fine_grid, coarse_grid}

abbrev geometry_of : ℕ → ℕ → ConvolutionGeometry
geometry_of k s = record {
  kernel_size = vec3 k 3 3;
  stride = vec3 s 2 2;
  padding_before = vec3 ((k - 1) / 2) 1 1;
  padding_after = vec3 (k - 1 - (k - 1) / 2) 1 1;
  kernel_volume = k * 3 * 3;
}

-- Kernel 2 under stride 3 misses a residue of its axis.
abbrev sparse : ConvolutionGeometry
sparse = geometry_of 2 3

sparse-made : convolution_geometry (map3 pos (vec3 2 3 3)) (map3 pos (vec3 3 2 2)) ≡ ok sparse
unfolding convolution_geometry checked_kernel_volume checked_times to_int32
sparse-made = refl

-- A size of 2 ^ 32 + 3 is taken for 3, and a size of 2 ^ 31 refused.
narrowed :
    convolution_geometry (map3 pos (vec3 4294967299 3 3)) (map3 pos (vec3 2 2 2))
    ≡ ok (geometry_of 3 2)
unfolding convolution_geometry checked_kernel_volume checked_times to_int32
narrowed = refl

too_large :
    convolution_geometry (map3 pos (vec3 2147483648 3 3)) (map3 pos (vec3 2 2 2))
    ≡ raise value_error
unfolding convolution_geometry checked_kernel_volume checked_times to_int32
too_large = refl

negative_size :
    convolution_geometry (vec3 (negsuc 0) (pos 3) (pos 3)) (map3 pos (vec3 2 2 2))
    ≡ raise value_error
unfolding convolution_geometry checked_kernel_volume checked_times to_int32
negative_size = refl

convolution_geometry-IsGeometry_example :
    (map3 pos sparse.kernel_size ≡ map3 to_int32 (map3 pos (vec3 2 3 3)))
    × (map3 pos sparse.stride ≡ map3 to_int32 (map3 pos (vec3 3 2 2)))
    × IsGeometry sparse
convolution_geometry-IsGeometry_example =
    convolution_geometry-IsGeometry (map3 pos (vec3 2 3 3)) (map3 pos (vec3 3 2 2)) sparse
      sparse-made

uncovered_axes-nil_iff_example :
    (uncovered_axes sparse ≡ []) ↔ ((fine : Coord) → IsReached sparse fine)
uncovered_axes-nil_iff_example =
    uncovered_axes-nil_iff sparse
      (convolution_geometry-IsGeometry (map3 pos (vec3 2 3 3)) (map3 pos (vec3 3 2 2)) sparse
        sparse-made).2

length-residues_example : length (residues 3 0 2) ≡ 2
length-residues_example = length-residues 3 0 (omega arith) 2

axes_warned :
    (warn_if_incomplete_residue_coverage sparse false []).1
    ≡ (if false || warned [] (key_of sparse) then [] else uncovered_axes sparse)
axes_warned = warn-axes sparse false []

warnings_for-le_one_example :
    warnings_for (key_of sparse) ((sparse, false) ∷ (sparse, false) ∷ []) [] ≤ 1
warnings_for-le_one_example =
    warnings_for-le_one (key_of sparse) ((sparse, false) ∷ (sparse, false) ∷ []) []

resolve_topology_policy_iff_example :
    (resolve_topology_policy (some coarse_grid) omitted ≡ ok restricted) ↔ (
      (restricted ≡ policy_for (some coarse_grid))
      × ((omitted ≡ omitted) ⊎ (omitted ≡ policy (policy_for (some coarse_grid)))))
resolve_topology_policy_iff_example =
    resolve_topology_policy_iff (some coarse_grid) omitted restricted

validate_transform_compatibility_iff_example :
    (validate_transform_compatibility toys
        (transform_compatibility toys fine_grid coarse_grid (geometry_of 3 2))
      ≡ ok tt)
    ↔ AreRegistered toys fine_grid coarse_grid (geometry_of 3 2)
validate_transform_compatibility_iff_example =
    validate_transform_compatibility_iff toys fine_grid coarse_grid (geometry_of 3 2)

validate_transform_compatibility-ne_runtime_error_example :
    validate_transform_compatibility toys
      (transform_compatibility toys fine_grid coarse_grid sparse)
    ≢ raise runtime_error
validate_transform_compatibility-ne_runtime_error_example =
    validate_transform_compatibility-ne_runtime_error toys fine_grid coarse_grid sparse

abbrev pairs : List ChannelPair
pairs = pair (pos 32) (pos 64) ∷ []

check_channel_pairs_iff_example : (check_channel_pairs pairs ≡ ok tt) ↔ All IsPositivePair pairs
check_channel_pairs_iff_example = check_channel_pairs_iff pairs

abbrev side : ℕ
side = 3

abbrev step : ℕ
step = 2

abbrev cube : Kernel
cube = vec3 3 3 3

abbrev steps : Kernel
steps = vec3 2 2 2

validate_pred_gather_igemm_admission_iff_example :
    (validate_pred_gather_igemm_admission cube steps pairs false ≡ ok (side, step)) ↔ (
      (false ≡ false)
      × (cube ≡ vec3 side side side)
      × (steps ≡ vec3 step step step)
      × ((side ≡ 3) ⊎ ((side ≡ 5) ⊎ (side ≡ 7)))
      × ((step ≡ 1) ⊎ (step ≡ 2))
      × All IsBlockedPair pairs)
validate_pred_gather_igemm_admission_iff_example =
    validate_pred_gather_igemm_admission_iff cube steps pairs false side step

abbrev relation : ConvolutionRelation
relation = record { kernel_size = vec3 3 3 3; stride = vec3 2 2 2; dilation = vec3 2 1 1 }

fine_found_back :
    (coarse_from_fine relation (vec3 (negsuc 3) (pos 5) (pos 1)) (vec3 (pos 0) (pos 2) (pos 0))
      ≡ some (vec3 (negsuc 0) (pos 2) (pos 1)))
    ↔ (fine_from_coarse relation (vec3 (negsuc 0) (pos 2) (pos 1)) (vec3 (pos 0) (pos 2) (pos 0))
        ≡ vec3 (negsuc 3) (pos 5) (pos 1))
fine_found_back =
    coarse_from_fine_iff relation (vec3 (negsuc 3) (pos 5) (pos 1))
      (vec3 (negsuc 0) (pos 2) (pos 1)) (vec3 (pos 0) (pos 2) (pos 0))
      (omega arith, omega arith, omega arith)
