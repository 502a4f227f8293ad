-- ===== src/Convolution/Residues/Coverage.antt =====
-- What an uncovered axis means: some fine coordinate has no coarse neighbour through any tap. The
-- relation is the one of fvdb/utils/tests/convolution_semantics_oracle.py, with no dilation.
use fvdb_core.Prelude.{ℕ, ◌-◌, ◌*◌, ◌/◌, ◌≤◌, ◌<◌, ◌≡◌, ap, ◌↔◌, [], arith}
use native.Mathlib.Decide.{dec_le}
use fvdb_core.Prelude.Int.{ℤ, pos, ◌+ℤ◌, ◌-ℤ◌, ◌*ℤ◌, int_laws, parts}
use fvdb_core.Prelude.Floor.{floor_div, floor_mod, floor_mod-lt, floor_div-mod, floor_unique}
use fvdb_core.Convolution.Vectors.{Kernel, Coord, vec3, map3, zip3, All3}
use fvdb_core.Convolution.Geometry.{ConvolutionGeometry, IsGeometry}
use fvdb_core.Convolution.Residues.{uncovered_axes}
use fvdb_core.Convolution.Residues.Count.{length-residues}
use fvdb_core.Oracle.Relation.{ConvolutionRelation, fine_from_coarse, offset}

-- The oracle's relation for a geometry: its sizes, and no dilation.
abbrev pub relation_of : ConvolutionGeometry → ConvolutionRelation
relation_of g = record { kernel_size = g.kernel_size; stride = g.stride; dilation = vec3 1 1 1 }

-- A fine coordinate that some coarse coordinate reaches through a tap of the kernel.
abbrev pub IsReached : ConvolutionGeometry → Coord → Type 0
IsReached g fine =
    (coarse : Coord) × (tap : Kernel) × All3 (λ (q : ℕ × ℕ). q.0 < q.1)
      (zip3 (λ t k. (t, k)) tap g.kernel_size)
    × (fine_from_coarse (relation_of g) coarse (map3 pos tap) ≡ fine)

-- Along one axis.
abbrev AxisReached : ℕ → ℕ → ℤ → Type 0
AxisReached k s f =
    (c : ℤ) × (t : ℕ) × (t < k) × (pos s *ℤ c +ℤ (pos 1 *ℤ pos t -ℤ pos (1 * (k - 1) / 2)) ≡ f)

axis_covered : (k s : ℕ) (f : ℤ) → 0 < s → s ≤ k → AxisReached k s f
axis_covered k s f h le =
    let g : ℤ = f +ℤ pos (1 * (k - 1) / 2) in
    (
      floor_div g s,
      floor_mod g s,
      omega (arith, floor_mod-lt g s h),
      omega (int_laws, parts (floor_div-mod g s h)),
    )

axis_missed : (k s : ℕ) → k < s → ¬ AxisReached k s (pos k -ℤ pos (1 * (k - 1) / 2))
axis_missed k s lt (c, t, below, e) =
    let here : floor_mod (pos k) s ≡ t =
      (floor_unique (pos k) c t s (omega arith) (omega (int_laws, parts e))).1 in
    let there : floor_mod (pos k) s ≡ k =
      (floor_unique (pos k) (pos 0) k s lt (omega int_laws)).1 in
    omega arith

axis_stride-le : (k s : ℕ) → AxisReached k s (pos k -ℤ pos (1 * (k - 1) / 2)) → s ≤ k
axis_stride-le k s reached = elim (dec_le s k) [
  | yes le ↦ le
  | no over ↦ absurd (axis_missed k s (omega arith) reached)
]

-- The fine coordinate that is missed along every axis whose stride exceeds the kernel.
abbrev witness : ConvolutionGeometry → Coord
witness g = map3 (λ k. pos k -ℤ pos (1 * (k - 1) / 2)) g.kernel_size

uncovered_axes-nil_le :
    (g : ConvolutionGeometry)
    → All3 (λ v. 0 < v) g.stride
    → (uncovered_axes g ≡ []) ↔ (
        (g.stride.x ≤ g.kernel_size.x)
        × (g.stride.y ≤ g.kernel_size.y)
        × (g.stride.z ≤ g.kernel_size.z))
unfolding uncovered_axes
uncovered_axes-nil_le g h = ground (
  arith,
  length-residues g.stride.x g.padding_before.x h.0 g.kernel_size.x,
  length-residues g.stride.y g.padding_before.y h.1 g.kernel_size.y,
  length-residues g.stride.z g.padding_before.z h.2 g.kernel_size.z,
)

-- A geometry that the constructor can give has no uncovered axis exactly when every fine coordinate is reached from some coarse
-- coordinate through some tap of the kernel.
pub uncovered_axes-nil_iff :
    (g : ConvolutionGeometry)
    → IsGeometry g
    → (uncovered_axes g ≡ []) ↔ ((fine : Coord) → IsReached g fine)
unfolding fine_from_coarse offset
uncovered_axes-nil_iff g v = (there, back)
  where
    there : uncovered_axes g ≡ [] → (fine : Coord) → IsReached g fine
    there e fine =
        let le =
          (uncovered_axes-nil_le g
              (v.stride_in_range.0.0, v.stride_in_range.1.0, v.stride_in_range.2.0)).0
            e in
        let (cx, tx, bx, ex) = axis_covered _ _ fine.x v.stride_in_range.0.0 le.0 in
        let (cy, ty, b_y, ey) = axis_covered _ _ fine.y v.stride_in_range.1.0 le.1 in
        let (cz, tz, bz, ez) = axis_covered _ _ fine.z v.stride_in_range.2.0 le.2 in
        (vec3 cx cy cz, vec3 tx ty tz, (bx, b_y, bz), λ i. vec3 (ex i) (ey i) (ez i))

    back : ((fine : Coord) → IsReached g fine) → uncovered_axes g ≡ []
    back all =
        let (c, t, below, e) = all (witness g) in
        (uncovered_axes-nil_le g
            (v.stride_in_range.0.0, v.stride_in_range.1.0, v.stride_in_range.2.0)).1
          (
            axis_stride-le _ _ (c.x, t.x, below.0, ap (λ (w : Coord). w.x) e),
            axis_stride-le _ _ (c.y, t.y, below.1, ap (λ (w : Coord). w.y) e),
            axis_stride-le _ _ (c.z, t.z, below.2, ap (λ (w : Coord). w.z) e),
          )
