-- ===== src/Oracle/Edges/Degrees.antt =====
-- What the degrees of fvdb/utils/tests/convolution_semantics_oracle.py count.
use fvdb_core.Prelude.{
  ℕ, ◌+◌, ◌*◌, ◌≡◌, refl, ap, ◌∙◌, List, [], ◌∷◌, map, range, length, length-append, length-map,
  length-range_from, if◌then◌else◌, arith, none,
}
use fvdb_core.Prelude.Int.{pos}
use fvdb_core.Convolution.Vectors.{vec3, Coord}
use fvdb_core.Oracle.Relation.{ConvolutionRelation, kernel_volume, fine_from_coarse}
use fvdb_core.Oracle.Edges.{
  RelationEdge, coord_eq, concat_map, taps, relation_edges, increment, count_coarse,
  forward_degrees, distinct, count_fine, count_fines, transpose_degrees,
}
use fvdb_core.Oracle.Edges.Sets.{coord_eq_iff}

-- The degree of a coordinate, 0 where the dictionary has none.
abbrev pub degree_of : Coord → List (Coord × ℕ) → ℕ
degree_of c [] = 0
degree_of c ((d, n) ∷ items) = if coord_eq c d then n else degree_of c items

abbrev pub total : List (Coord × ℕ) → ℕ
total [] = 0
total ((d, n) ∷ items) = n + total items

-- The number of edges at a coarse coordinate.
abbrev pub edges_at : Coord → List RelationEdge → ℕ
edges_at c [] = 0
edges_at c (e ∷ es) = (if coord_eq c e.coarse then 1 else 0) + edges_at c es

degree_of-increment :
    (c d : Coord) (items : List (Coord × ℕ))
    → degree_of c (increment d items) ≡ degree_of c items + (if coord_eq c d then 1 else 0)
degree_of-increment c d [] = ground arith
degree_of-increment c d ((k, n) ∷ items) =
    ground
      (arith, coord_eq_iff d k, coord_eq_iff c k, coord_eq_iff c d, degree_of-increment c d items)

degree_of-count_coarse :
    (c : Coord) (es : List RelationEdge) (items : List (Coord × ℕ))
    → degree_of c (count_coarse es items) ≡ degree_of c items + edges_at c es
unfolding count_coarse
degree_of-count_coarse c [] items = omega arith
degree_of-count_coarse c (e ∷ es) items = omega (
  arith,
  degree_of-count_coarse c es (increment e.coarse items),
  degree_of-increment c e.coarse items,
)

-- The forward degree of a coordinate is the number of edges of the enumeration that end there.
pub forward_degrees-edges :
    (fines : List Coord) (r : ConvolutionRelation) (c : Coord)
    → degree_of c (forward_degrees fines r) ≡ edges_at c (relation_edges fines r none)
unfolding forward_degrees
forward_degrees-edges fines r c =
    omega (arith, degree_of-count_coarse c (relation_edges fines r none) [])

total-increment :
    (d : Coord) (items : List (Coord × ℕ)) → total (increment d items) ≡ total items + 1
total-increment d [] = refl
total-increment d ((k, n) ∷ items) = ground (arith, total-increment d items)

total-count_fine :
    (r : ConvolutionRelation) (coarse : Coord) (ts : List Coord) (items : List (Coord × ℕ))
    → total (count_fine r coarse ts items) ≡ total items + length ts
unfolding count_fine
total-count_fine r coarse [] items = omega arith
total-count_fine r coarse (t ∷ ts) items = omega (
  arith,
  total-count_fine r coarse ts (increment (fine_from_coarse r coarse t) items),
  total-increment (fine_from_coarse r coarse t) items,
)

length-concat_map :
    {A B : Type 0} (f : A → List B) (n : ℕ) (xs : List A)
    → ((x : A) → length (f x) ≡ n)
    → length (concat_map f xs) ≡ length xs * n
length-concat_map f n [] h = omega arith
length-concat_map f n (x ∷ xs) h =
    length-append (f x) (concat_map f xs) ∙ omega (arith, h x, length-concat_map f n xs h)

abbrev row_of : ConvolutionRelation → ℕ → ℕ → List Coord
row_of r a b = map (λ c. vec3 (pos a) (pos b) (pos c)) (range r.kernel_size.z)

abbrev plane_of : ConvolutionRelation → ℕ → List Coord
plane_of r a = concat_map (row_of r a) (range r.kernel_size.y)

length-taps : (r : ConvolutionRelation) → length (taps r) ≡ kernel_volume r
unfolding taps kernel_volume
length-taps r =
    let k = r.kernel_size in
    let plane : (a : ℕ) → length (plane_of r a) ≡ k.y * k.z = λ a.
      length-concat_map (row_of r a) k.z (range k.y)
        (λ b. length-map (λ c. vec3 (pos a) (pos b) (pos c)) (range k.z) ∙ length-range_from 0 k.z)
      ∙ ap (λ n. n * k.z) (length-range_from 0 k.y) in
    length-concat_map (plane_of r) (k.y * k.z) (range k.x) plane
    ∙ ap (λ n. n * (k.y * k.z)) (length-range_from 0 k.x)
    ∙ omega arith

total-count_fines :
    (r : ConvolutionRelation) (cs : List Coord) (items : List (Coord × ℕ))
    → total (count_fines r cs items) ≡ total items + length cs * kernel_volume r
unfolding count_fines
total-count_fines r [] items = omega arith
total-count_fines r (c ∷ cs) items = omega (
  arith,
  total-count_fines r cs (count_fine r c (taps r) items),
  total-count_fine r c (taps r) items,
  length-taps r,
)

-- The transpose degrees add up to the number of different coarse coordinates times the kernel's volume:
-- every tap of every one of them is counted once.
pub transpose_degrees-total :
    (coarses : List Coord) (r : ConvolutionRelation)
    → total (transpose_degrees coarses r) ≡ length (distinct coarses) * kernel_volume r
unfolding transpose_degrees
transpose_degrees-total coarses r = omega (arith, total-count_fines r (distinct coarses) [])
