-- ===== src/Oracle/RoundTrip.antt =====
-- The two directions of the relation undo one another.
use fvdb_core.Prelude.{ℕ, ◌<◌, ◌≡◌, ◌↔◌, some, arith}
use fvdb_core.Prelude.Int.{ℤ, pos, ◌+ℤ◌, ◌-ℤ◌, ◌*ℤ◌, int_laws, parts}
use fvdb_core.Prelude.Floor.{floor_div, floor_mod, floor_div-mod, floor_unique}
use fvdb_core.Convolution.Vectors.{Coord}
use fvdb_core.Oracle.Relation.{
  ConvolutionRelation, IsPositive, offset, fine_from_coarse, coarse_from_fine,
}

axis_fine→coarse :
    (f o c : ℤ) (s : ℕ)
    → 0 < s
    → pos s *ℤ c +ℤ o ≡ f
    → (floor_div (f -ℤ o) s ≡ c) × (floor_mod (f -ℤ o) s ≡ 0)
axis_fine→coarse f o c s h e = floor_unique (f -ℤ o) c 0 s h (omega (int_laws, parts e))

axis_coarse→fine :
    (f o : ℤ) (s : ℕ) → 0 < s → floor_mod (f -ℤ o) s ≡ 0 → pos s *ℤ floor_div (f -ℤ o) s +ℤ o ≡ f
axis_coarse→fine f o s h e =
    let d : pos s *ℤ floor_div (f -ℤ o) s +ℤ pos 0 ≡ f -ℤ o =
      rw e at (floor_div-mod (f -ℤ o) s h) in
    omega (int_laws, parts d)

-- With positive strides, the coarse coordinate that `coarse_from_fine` finds for a fine coordinate
-- and a tap is exactly the one from which `fine_from_coarse` gives that fine coordinate back.
pub coarse_from_fine_iff :
    (r : ConvolutionRelation) (f c t : Coord)
    → IsPositive r.stride
    → (coarse_from_fine r f t ≡ some c) ↔ (fine_from_coarse r c t ≡ f)
unfolding coarse_from_fine fine_from_coarse
coarse_from_fine_iff r f c t h = (there, back)
  where
    o : Coord
    o = offset r t

    there : coarse_from_fine r f t ≡ some c → fine_from_coarse r c t ≡ f
    there e = ground (
      arith,
      axis_coarse→fine f.x o.x r.stride.x h.0,
      axis_coarse→fine f.y o.y r.stride.y h.1,
      axis_coarse→fine f.z o.z r.stride.z h.2,
    )

    back : fine_from_coarse r c t ≡ f → coarse_from_fine r f t ≡ some c
    back e = ground (
      arith,
      axis_fine→coarse f.x o.x c.x r.stride.x h.0,
      axis_fine→coarse f.y o.y c.y r.stride.y h.1,
      axis_fine→coarse f.z o.z c.z r.stride.z h.2,
    )
