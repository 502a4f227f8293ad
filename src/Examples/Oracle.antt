-- ===== src/Examples/Oracle.antt =====
-- A small relation between fine and coarse coordinates, and instances of the theorems on its edges.
use fvdb_core.Prelude.{ℕ, ◌*◌, ◌≡◌, ◌↔◌, refl, none, some, [], ◌∷◌, length, arith}
use fvdb_core.Prelude.Int.{pos, ◌+ℤ◌, ◌-ℤ◌, ◌*ℤ◌}
use fvdb_core.Prelude.Floor.{floor_div, floor_mod}
use fvdb_core.Convolution.Vectors.{vec3, Coord}
use fvdb_core.Oracle.Relation.{
  ConvolutionRelation, coarse_from_fine, fine_from_coarse, offset, p_before, kernel_volume,
}
use fvdb_core.Oracle.Edges.{
  RelationEdge, taps, relation_edges, add_fines, add_taps, add_edge, distinct, transpose_degrees,
}
use fvdb_core.Oracle.Edges.Sets.{IsIn}
use fvdb_core.Oracle.Edges.Membership.{IsAdmittedBy, relation_edges_iff}
use fvdb_core.Oracle.Edges.Degrees.{total, transpose_degrees-total}

-- Two taps along the first axis, and a stride of two.
abbrev halving : ConvolutionRelation
halving = record { kernel_size = vec3 2 1 1; stride = vec3 2 1 1; dilation = vec3 1 1 1 }

abbrev at_x : ℕ → Coord
at_x n = vec3 (pos n) (pos 0) (pos 0)

abbrev edge : RelationEdge
edge = record { fine = at_x 3; coarse = at_x 1; tap = at_x 1 }

two_edges :
    relation_edges (at_x 3 ∷ at_x 2 ∷ at_x 3 ∷ []) halving none
    ≡ record { fine = at_x 2; coarse = at_x 1; tap = at_x 0 } ∷ edge ∷ []
unfolding relation_edges add_fines add_taps add_edge taps coarse_from_fine offset p_before floor_div
    floor_mod ◌+ℤ◌ ◌-ℤ◌ ◌*ℤ◌
two_edges = refl

relation_edges_iff_example :
    IsIn edge (relation_edges (at_x 3 ∷ []) halving (some (at_x 1 ∷ []))) ↔ (
      IsIn (at_x 3) (at_x 3 ∷ [])
      × IsIn (at_x 1) (taps halving)
      × (fine_from_coarse halving (at_x 1) (at_x 1) ≡ at_x 3)
      × IsAdmittedBy (some (at_x 1 ∷ [])) (at_x 1))
relation_edges_iff_example =
    relation_edges_iff (at_x 3 ∷ []) halving (some (at_x 1 ∷ [])) edge
      (omega arith, omega arith, omega arith)

transpose_degrees-total_example :
    total (transpose_degrees (at_x 1 ∷ at_x 2 ∷ at_x 1 ∷ []) halving)
    ≡ length (distinct (at_x 1 ∷ at_x 2 ∷ at_x 1 ∷ [])) * kernel_volume halving
transpose_degrees-total_example = transpose_degrees-total (at_x 1 ∷ at_x 2 ∷ at_x 1 ∷ []) halving
