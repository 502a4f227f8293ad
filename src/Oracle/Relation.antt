-- ===== src/Oracle/Relation.antt =====
-- The scalar relation of fvdb/utils/tests/convolution_semantics_oracle.py: `ConvolutionRelation`
-- and the two directions in which it is solved. A relation that is constructed has positive entries,
-- so they are natural numbers; coordinates and taps are integers.
use fvdb_core.Prelude.{ℕ, ◌-◌, ◌*◌, ◌/◌, ◌<◌, not, Option, none, some, if◌then◌else◌, ◌==◌}
use fvdb_core.Prelude.Int.{ℤ, pos, pos_part, ◌+ℤ◌, ◌-ℤ◌, ◌*ℤ◌, leb_ℤ}
use fvdb_core.Prelude.Floor.{floor_div, floor_mod}
use fvdb_core.Prelude.Results.{Result, ok, value_error, raise_if, ◌>>◌}
use fvdb_core.Convolution.Vectors.{Vec3, map3, zip3, any3, All3, Coord, Kernel}

pub record ConvolutionRelation : Type 0 where
  pub kernel_size : Kernel
  pub stride : Kernel
  pub dilation : Kernel

-- `__post_init__`: each of the three vectors is refused unless its entries are positive.
pub convolution_relation : Vec3 ℤ → Vec3 ℤ → Vec3 ℤ → Result ConvolutionRelation
convolution_relation k s d = do
  raise_if (any3 (λ v. leb_ℤ v (pos 0)) k) value_error
  raise_if (any3 (λ v. leb_ℤ v (pos 0)) s) value_error
  raise_if (any3 (λ v. leb_ℤ v (pos 0)) d) value_error
  ok (record {
    kernel_size = map3 pos_part k;
    stride = map3 pos_part s;
    dilation = map3 pos_part d;
  })

abbrev axis_p_before : ℕ → ℕ → ℕ
axis_p_before d k = d * (k - 1) / 2

unfoldable pub p_before : ConvolutionRelation → Kernel
p_before r = zip3 axis_p_before r.dilation r.kernel_size

unfoldable pub p_after : ConvolutionRelation → Kernel
p_after r = zip3 (λ d k. d * (k - 1) - axis_p_before d k) r.dilation r.kernel_size

unfoldable pub r_min : ConvolutionRelation → Coord
unfolding p_before
r_min r = map3 (λ p. pos 0 -ℤ pos p) (p_before r)

unfoldable pub r_max : ConvolutionRelation → Coord
r_max r = zip3 (λ d k. pos (d * (k - 1)) -ℤ pos (axis_p_before d k)) r.dilation r.kernel_size

unfoldable pub kernel_volume : ConvolutionRelation → ℕ
kernel_volume r = r.kernel_size.x * r.kernel_size.y * r.kernel_size.z

unfoldable pub offset : ConvolutionRelation → Coord → Coord
unfolding p_before
offset r tap = zip3 (λ t p. t -ℤ pos p) (zip3 (λ d t. pos d *ℤ t) r.dilation tap) (p_before r)

unfoldable pub fine_from_coarse : ConvolutionRelation → Coord → Coord → Coord
fine_from_coarse r coarse tap = zip3 ◌+ℤ◌ (zip3 (λ s c. pos s *ℤ c) r.stride coarse) (offset r tap)

unfoldable pub coarse_from_fine : ConvolutionRelation → Coord → Coord → Option Coord
coarse_from_fine r fine tap =
    let numerators = zip3 ◌-ℤ◌ fine (offset r tap) in
    if any3 (λ m. not (m == 0)) (zip3 floor_mod numerators r.stride)
    then none
    else some (zip3 floor_div numerators r.stride)

abbrev pub IsPositive : Kernel → Type 0
IsPositive = All3 (λ v. 0 < v)
