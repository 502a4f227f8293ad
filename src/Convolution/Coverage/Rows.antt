-- ===== src/Convolution/Coverage/Rows.antt =====
-- The rows that the edges of a rulebook reach, by the count of rows without one: `_output_zero_count` of
-- fvdb/convolution_plan.py.
use fvdb_core.Prelude.{
  ℕ, ◌<◌, ◌≡◌, sym, subst, ◌∙◌, List, [], ◌∷◌, All, get_or, length, count, ◌==◌, ==_iff, arith,
  some, zero, suc, Bool-cases, inl, inr,
}
use mathlib.Core.Option.{some-injective}
use fvdb_core.Convolution.Coverage.Tensors.{Tensor1, IndexTensors}
use fvdb_core.Convolution.Coverage.Backend.{
  GatherScatterDefaultTopology, Backend, matmul, gather_scatter, pred_gather_igemm, unknown,
  IsRulebook,
}
use fvdb_core.Convolution.Coverage.Report.{output_zero_count, output_degrees}
use fvdb_core.Convolution.Coverage.Degrees.{rulebook}

-- The output row is at the end of an edge that comes from a feature row.
pub record HasEdge (t : GatherScatterDefaultTopology) (row : ℕ) : Type 0 where
  pub edge : ℕ
  pub is_edge : edge < length t.gather_indices
  pub ends : get_or t.scatter_indices edge 0 ≡ row
  pub begins : get_or t.gather_indices edge 0 < t.feature_total_voxels

-- A counted element stands somewhere.
position : (v : ℕ) (xs : List ℕ) → 0 < count v xs → (i : ℕ) × (i < length xs) × (get_or xs i 0 ≡ v)
position v [] h = absurd (omega arith)
position v (x ∷ xs) h = elim (Bool-cases (v == x)) [
  | inl e ↦ (0, omega arith, sym ((==_iff v x).0 e))
  | inr n ↦ let (i, lt, e) = position v xs (ground arith) in (suc i, omega arith, e)
]

-- Where no element is zero, each one is positive.
positive_at : (xs : List ℕ) (i : ℕ) → count 0 xs ≡ 0 → i < length xs → 0 < get_or xs i 0
positive_at [] i h lt = absurd (omega arith)
positive_at (x ∷ xs) zero h lt = ground arith
positive_at (x ∷ xs) (suc i) h lt = positive_at xs i (ground arith) (omega arith)

below_at : (n : ℕ) (xs : List ℕ) (i : ℕ) → All (λ x. x < n) xs → i < length xs → get_or xs i 0 < n
below_at n [] i h lt = absurd (omega arith)
below_at n (x ∷ xs) zero h lt = h.0
below_at n (x ∷ xs) (suc i) h lt = below_at n xs i h.1 (omega arith)

module _ (T : IndexTensors) where
  open T use {bincount}

  -- Where no degree is zero, each row of a rulebook has an edge.
  degrees-HasEdge :
      (t : GatherScatterDefaultTopology) (row : ℕ)
      → IsRulebook t
      → T.count_eq (output_degrees T t) 0 ≡ 0
      → row < t.output_total_voxels
      → HasEdge t row
  degrees-HasEdge t row v none_zero lt =
      let n = t.output_total_voxels in
      let degrees : Tensor1 = bincount t.scatter_indices n in
      let size : length degrees ≡ n = T.bincount_length t.scatter_indices n v.scatters in
      let degree : 0 < get_or degrees row 0 =
        positive_at degrees row (sym (T.count_eq_lem degrees 0) ∙ none_zero)
          (subst (λ m. row < m) (sym size) lt) in
      let (e, e_lt, ends) =
        position row t.scatter_indices
          (subst (λ m. 0 < m) (T.bincount_get t.scatter_indices n row lt) degree) in
      let is_edge : e < length t.gather_indices = subst (λ m. e < m) (sym v.paired) e_lt in
      record {
        edge = e;
        is_edge = is_edge;
        ends = ends;
        begins = below_at t.feature_total_voxels t.gather_indices e v.gathers is_edge;
      }

  -- Where a backend counts no row without an edge, each row of its rulebook has one.
  pub output_zero_count-HasEdge :
      (b : Backend) (t : GatherScatterDefaultTopology) (row : ℕ)
      → rulebook b ≡ some t
      → IsRulebook t
      → output_zero_count T b ≡ some 0
      → row < t.output_total_voxels
      → HasEdge t row
  unfolding output_zero_count
  output_zero_count-HasEdge matmul t row e v z lt = absurd (cc e)
  output_zero_count-HasEdge (gather_scatter u) t row e v z lt =
      let same = some-injective u t e in
      degrees-HasEdge t row v
        (subst (λ w. T.count_eq (output_degrees T w) 0 ≡ 0) same (some-injective _ 0 z)) lt
  output_zero_count-HasEdge (pred_gather_igemm u k s) t row e v z lt =
      let same = some-injective u t e in
      degrees-HasEdge t row v
        (subst (λ w. T.count_eq (output_degrees T w) 0 ≡ 0) same (some-injective _ 0 z)) lt
  output_zero_count-HasEdge unknown t row e v z lt = absurd (cc e)
