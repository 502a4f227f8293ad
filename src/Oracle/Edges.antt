-- ===== src/Oracle/Edges.antt =====
-- `relation_edges` and the degrees of fvdb/utils/tests/convolution_semantics_oracle.py. A sorted tuple of
-- a set is a list to which each element is added at its place, unless it is there; so neither the order
-- nor the repetitions of the coordinates that are iterated over matter.
pub mod Sets
pub mod Membership
pub mod Degrees
use fvdb_core.Prelude.{
  ℕ, ◌+◌, ◌≡◌, Bool, true, false, ◌&&◌, ◌||◌, Option, none, some, List, [], ◌∷◌, ◌++◌, map, range,
  ◌==◌, if◌then◌else◌,
}
use fvdb_core.Prelude.Int.{ℤ, pos, negsuc, ltb_ℤ}
use fvdb_core.Convolution.Vectors.{Vec3, vec3, Coord, to_list}
use fvdb_core.Oracle.Relation.{ConvolutionRelation, coarse_from_fine, fine_from_coarse}

pub record RelationEdge : Type 0 where
  pub fine : Coord
  pub coarse : Coord
  pub tap : Coord

abbrev pub eq_ℤ : ℤ → ℤ → Bool
eq_ℤ (pos m) (pos n) = m == n
eq_ℤ (negsuc m) (negsuc n) = m == n
eq_ℤ _ _ = false

abbrev pub coord_eq : Coord → Coord → Bool
coord_eq a b = eq_ℤ a.x b.x && (eq_ℤ a.y b.y && eq_ℤ a.z b.z)

abbrev pub edge_eq : RelationEdge → RelationEdge → Bool
edge_eq d e = coord_eq d.fine e.fine && (coord_eq d.coarse e.coarse && coord_eq d.tap e.tap)

abbrev pub lexicographic : List ℤ → List ℤ → Bool
lexicographic [] ns = false
lexicographic (m ∷ ms) [] = false
lexicographic (m ∷ ms) (n ∷ ns) = ltb_ℤ m n || (eq_ℤ m n && lexicographic ms ns)

-- The order of edges: of their fine coordinates, then of their coarse ones, then of their taps.
abbrev pub edge_before : RelationEdge → RelationEdge → Bool
edge_before d e =
    lexicographic (to_list d.fine ++ (to_list d.coarse ++ to_list d.tap))
      (to_list e.fine ++ (to_list e.coarse ++ to_list e.tap))

-- `edges.add(edge)`, in a set that is kept sorted.
unfoldable pub add_edge : RelationEdge → List RelationEdge → List RelationEdge
add_edge e [] = e ∷ []
add_edge e (d ∷ ds) =
    if edge_eq e d then d ∷ ds else if edge_before e d then e ∷ d ∷ ds else d ∷ add_edge e ds

abbrev pub concat_map : {A B : Type 0} → (A → List B) → List A → List B
concat_map f [] = []
concat_map f (x ∷ xs) = f x ++ concat_map f xs

-- `ConvolutionRelation.taps`
unfoldable pub taps : ConvolutionRelation → List Coord
taps r =
    concat_map
      (λ a.
        concat_map (λ b. map (λ c. vec3 (pos a) (pos b) (pos c)) (range r.kernel_size.z))
          (range r.kernel_size.y))
      (range r.kernel_size.x)

abbrev pub contains : Coord → List Coord → Bool
contains c [] = false
contains c (d ∷ ds) = coord_eq c d || contains c ds

-- `coarse_set is None or coarse in coarse_set`
abbrev pub is_admitted : Option (List Coord) → Coord → Bool
is_admitted none c = true
is_admitted (some coarses) c = contains c coarses

abbrev pub add_if : Bool → RelationEdge → List RelationEdge → List RelationEdge
add_if test e es = if test then add_edge e es else es

-- The body of the loop over the taps.
abbrev pub add_tap :
    Option (List Coord) → Coord → Coord → Option Coord → List RelationEdge → List RelationEdge
add_tap coarses fine tap none es = es
add_tap coarses fine tap (some coarse) es =
    add_if (is_admitted coarses coarse) (record { fine = fine; coarse = coarse; tap = tap }) es

unfoldable pub add_taps :
    ConvolutionRelation
    → Option (List Coord)
    → Coord
    → List Coord
    → List RelationEdge
    → List RelationEdge
add_taps r coarses fine [] es = es
add_taps r coarses fine (tap ∷ rest) es =
    add_taps r coarses fine rest (add_tap coarses fine tap (coarse_from_fine r fine tap) es)

unfoldable pub add_fines :
    ConvolutionRelation → Option (List Coord) → List Coord → List RelationEdge → List RelationEdge
add_fines r coarses [] es = es
add_fines r coarses (fine ∷ rest) es =
    add_fines r coarses rest (add_taps r coarses fine (taps r) es)

-- `relation_edges`
unfoldable pub relation_edges :
    List Coord → ConvolutionRelation → Option (List Coord) → List RelationEdge
relation_edges fines r coarses = add_fines r coarses fines []

-- `degrees[c] = degrees.get(c, 0) + 1`, in a dictionary as a list of its items.
abbrev pub increment : Coord → List (Coord × ℕ) → List (Coord × ℕ)
increment c [] = (c, 1) ∷ []
increment c ((d, n) ∷ items) =
    if coord_eq c d then (d, n + 1) ∷ items else (d, n) ∷ increment c items

unfoldable pub count_coarse : List RelationEdge → List (Coord × ℕ) → List (Coord × ℕ)
count_coarse [] degrees = degrees
count_coarse (e ∷ es) degrees = count_coarse es (increment e.coarse degrees)

-- `forward_degrees`
unfoldable pub forward_degrees : List Coord → ConvolutionRelation → List (Coord × ℕ)
forward_degrees fines r = count_coarse (relation_edges fines r none) []

abbrev pub add_coord : Coord → List Coord → List Coord
add_coord c cs = if contains c cs then cs else c ∷ cs

-- A set of coordinates.
abbrev pub distinct : List Coord → List Coord
distinct [] = []
distinct (c ∷ cs) = add_coord c (distinct cs)

unfoldable pub count_fine :
    ConvolutionRelation → Coord → List Coord → List (Coord × ℕ) → List (Coord × ℕ)
count_fine r coarse [] degrees = degrees
count_fine r coarse (tap ∷ rest) degrees =
    count_fine r coarse rest (increment (fine_from_coarse r coarse tap) degrees)

unfoldable pub count_fines : ConvolutionRelation → List Coord → List (Coord × ℕ) → List (Coord × ℕ)
count_fines r [] degrees = degrees
count_fines r (coarse ∷ rest) degrees = count_fines r rest (count_fine r coarse (taps r) degrees)

-- `transpose_degrees`
unfoldable pub transpose_degrees : List Coord → ConvolutionRelation → List (Coord × ℕ)
transpose_degrees coarses r = count_fines r (distinct coarses) []
