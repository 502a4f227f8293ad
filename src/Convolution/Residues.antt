-- ===== src/Convolution/Residues.antt =====
-- Which stride residues the taps of a kernel reach: `_warn_if_incomplete_residue_coverage` of
-- fvdb/convolution_plan.py, with the set of geometries that have been warned of as explicit state.
pub mod Count
pub mod Coverage
pub mod Once
use fvdb_core.Prelude.{
  ℕ, zero, suc, ◌≡◌, Bool, true, false, ◌&&◌, ◌||◌, List, [], ◌∷◌, ◌++◌, if◌then◌else◌, ◌==◌,
  length,
}
use fvdb_core.Prelude.Int.{ℤ, pos, ◌-ℤ◌}
use fvdb_core.Prelude.Floor.{floor_mod}
use fvdb_core.Prelude.Sets.{add}
use fvdb_core.Convolution.Vectors.{Vec3, Kernel}
use fvdb_core.Convolution.Geometry.{ConvolutionGeometry}

-- `(tap - padding_before) % step`
unfoldable pub residue : ℕ → ℕ → ℕ → ℕ
residue step padding_before tap = floor_mod (pos tap -ℤ pos padding_before) step

-- `{(tap - padding_before) % step for tap in range(kernel)}`, a set
unfoldable pub residues : ℕ → ℕ → ℕ → List ℕ
residues step padding_before zero = []
residues step padding_before (suc kernel) =
    add (residue step padding_before kernel) (residues step padding_before kernel)

-- The pass of the loop for one axis.
abbrev pub axis_uncovered : ℕ → ℕ → ℕ → ℕ → List ℕ
axis_uncovered axis kernel step padding_before =
    if length (residues step padding_before kernel) == step then [] else axis ∷ []

unfoldable pub uncovered_axes : ConvolutionGeometry → List ℕ
uncovered_axes g =
    axis_uncovered 0 g.kernel_size.x g.stride.x g.padding_before.x
    ++ axis_uncovered 1 g.kernel_size.y g.stride.y g.padding_before.y
    ++ axis_uncovered 2 g.kernel_size.z g.stride.z g.padding_before.z

-- `(kernel_size, stride)`, a key of `_WARNED_INCOMPLETE_COVERAGE_GEOMETRIES`
abbrev pub GeometryKey : Type 0
GeometryKey = Kernel × Kernel

abbrev pub kernel_eq : Kernel → Kernel → Bool
kernel_eq a b = a.x == b.x && (a.y == b.y && a.z == b.z)

abbrev pub key_eq : GeometryKey → GeometryKey → Bool
key_eq (k, s) (k', s') = kernel_eq k k' && kernel_eq s s'

abbrev pub warned : List GeometryKey → GeometryKey → Bool
warned [] key = false
warned (k ∷ ks) key = key_eq key k || warned ks key

-- The set afterwards, and the axes that the call warned of, if it warned.
unfoldable pub warn_if_incomplete_residue_coverage :
    ConvolutionGeometry → Bool → List GeometryKey → List GeometryKey × List ℕ
warn_if_incomplete_residue_coverage g acknowledge_incomplete_coverage seen =
    let axes = uncovered_axes g in
    let key : GeometryKey = (g.kernel_size, g.stride) in
    if acknowledge_incomplete_coverage
    then (seen, [])
    else if length axes == 0
    then (seen, [])
    else if warned seen key
    then (seen, [])
    else (key ∷ seen, axes)
