-- ===== src/Convolution/Coverage/Degrees.antt =====
-- What the numbers of a coverage report say of the rulebook.
use fvdb_core.Prelude.{
  ℕ, ◌<◌, ◌≡◌, refl, sym, ap, ◌∙◌, List, [], ◌∷◌, map, All, length, count, sum, ◌==◌, if◌then◌else◌,
  arith, Option, none, some, false,
}
use mathlib.Core.Option
use mathlib.Core.Option.{some-injective}
use fvdb_core.Convolution.Coverage.Tensors.{Tensor1, IndexTensors}
use fvdb_core.Convolution.Coverage.Backend.{
  GatherScatterDefaultTopology, Backend, matmul, gather_scatter, pred_gather_igemm, unknown,
  IsRulebook,
}
use fvdb_core.Convolution.Coverage.Report.{
  ConvolutionCoverageReport, Histogram, degree_summary, degrees_report, coverage_report,
  output_zero_count, input_degrees, output_degrees, matmul_report,
}
use fvdb_core.Convolution.Coverage.Counting.{
  sum_range, sum-map-get, sum_range-count, weighted, weighted-histogram,
}

-- The edges that a histogram accounts for: each degree, times the rows that have it.
abbrev pub edges : Histogram → ℕ
edges = weighted (λ degree. degree)

-- The rows below `n` that no index names.
abbrev pub untouched : ℕ → Tensor1 → ℕ
untouched n indices = sum_range (λ row. if 0 == count row indices then 1 else 0) 0 n

-- The rulebook of a backend, where it has one.
abbrev pub rulebook : Backend → Option GatherScatterDefaultTopology
rulebook matmul = none
rulebook (gather_scatter t) = some t
rulebook (pred_gather_igemm t k s) = some t
rulebook unknown = none

map-id : (xs : List ℕ) → map (λ x. x) xs ≡ xs
map-id [] = refl
map-id (x ∷ xs) = ap (λ l. x ∷ l) (map-id xs)

count-sum : (v : ℕ) (xs : List ℕ) → count v xs ≡ sum (map (λ x. if v == x then 1 else 0) xs)
count-sum v [] = refl
count-sum v (x ∷ xs) = omega (arith, count-sum v xs)

module _ (T : IndexTensors) where
  open T use {bincount, count_eq, unique}

  degree_summary-zeros : (d : Tensor1) → (degree_summary T d).zero_count ≡ count_eq d 0
  unfolding degree_summary
  degree_summary-zeros [] = sym (T.count_eq_lem [] 0)
  degree_summary-zeros (x ∷ d) = ground arith

  degree_summary-histogram : (d : Tensor1) → edges (degree_summary T d).histogram ≡ sum d
  unfolding degree_summary
  degree_summary-histogram [] = refl
  degree_summary-histogram (x ∷ d) =
      let a = x ∷ d in
      let some_row : (length a == 0) ≡ false = ground arith in
      rw some_row (
        weighted-histogram (unique a) a (T.unique_ascending a) (T.unique_counts a)
          (T.unique_total a))

  -- The degrees of the rows of one side, by the rows' indices on the edges.
  module _ (t : Tensor1) (n : ℕ) (below : All (λ i. i < n) t) where
    size : length (bincount t n) ≡ n
    size = T.bincount_length t n below

    sum-bins : (g : ℕ → ℕ) → sum (map g (bincount t n)) ≡ sum_range (λ i. g (count i t)) 0 n
    sum-bins g =
        sum-map-get g (λ i. count i t) (bincount t n) 0
          (λ i lt. T.bincount_get t n i (omega (arith, size)) ∙ ap (λ j. count j t) (omega arith))
        ∙ ap (sum_range (λ i. g (count i t)) 0) size

    sum-bincount : sum (bincount t n) ≡ length t
    sum-bincount =
        ap sum (sym (map-id (bincount t n))) ∙ sum-bins (λ x. x) ∙ sum_range-count n t below

    zeros : count_eq (bincount t n) 0 ≡ untouched n t
    zeros =
        T.count_eq_lem (bincount t n) 0
        ∙ count-sum 0 (bincount t n)
        ∙ sum-bins (λ x. if 0 == x then 1 else 0)

    -- The summary of a side: the rows without an edge, the edges, and the rows.
    degree_summary-edges :
        let summary = degree_summary T (bincount t n) in
        (summary.zero_count ≡ untouched n t) × (edges summary.histogram ≡ length t)
    degree_summary-edges = (
      degree_summary-zeros (bincount t n) ∙ zeros,
      degree_summary-histogram (bincount t n) ∙ sum-bincount,
    )

  same :
      (u t : GatherScatterDefaultTopology)
      → some u ≡ some t
      → some (degrees_report T (input_degrees T u) (output_degrees T u))
        ≡ some (degrees_report T (input_degrees T t) (output_degrees T t))
  same u t e =
      ap (λ w. some (degrees_report T (input_degrees T w) (output_degrees T w)))
        (some-injective u t e)

  of_rulebook :
      (b : Backend) (t : GatherScatterDefaultTopology) (source target : ℕ)
      → rulebook b ≡ some t
      → coverage_report T b source target
        ≡ some (degrees_report T (input_degrees T t) (output_degrees T t))
  unfolding coverage_report
  of_rulebook matmul t source target e = cc
  of_rulebook (gather_scatter u) t source target e = same u t e
  of_rulebook (pred_gather_igemm u k s) t source target e = same u t e
  of_rulebook unknown t source target e = cc

  -- For a backend with a rulebook whose indices are in range the report counts the rows of both grids, the rows that no edge
  -- touches, and every edge once on the input side and once on the output side.
  pub coverage_report-edges :
      (b : Backend) (t : GatherScatterDefaultTopology) (source target : ℕ)
      → rulebook b ≡ some t
      → IsRulebook t
      → (r : ConvolutionCoverageReport) × (coverage_report T b source target ≡ some r)
        × (r.input_row_count ≡ t.feature_total_voxels)
        × (r.output_row_count ≡ t.output_total_voxels)
        × (r.input_zero_count ≡ untouched t.feature_total_voxels t.gather_indices)
        × (r.output_zero_count ≡ untouched t.output_total_voxels t.scatter_indices)
        × (edges r.input_degree_histogram ≡ length t.gather_indices)
        × (edges r.output_degree_histogram ≡ length t.gather_indices)
  unfolding coverage_report
  coverage_report-edges b t source target e v =
      let (in_zeros, in_edges) =
        degree_summary-edges t.gather_indices t.feature_total_voxels v.gathers in
      let (out_zeros, out_edges) =
        degree_summary-edges t.scatter_indices t.output_total_voxels v.scatters in
      (
        degrees_report T (input_degrees T t) (output_degrees T t),
        of_rulebook b t source target e,
        size t.gather_indices t.feature_total_voxels v.gathers,
        size t.scatter_indices t.output_total_voxels v.scatters,
        in_zeros,
        out_zeros,
        in_edges,
        out_edges ∙ sym v.paired,
      )

  -- The count that `_output_zero_count` makes alone is the one of the full report.
  pub output_zero_count-report :
      (b : Backend) (source target : ℕ)
      → output_zero_count T b
        ≡ Option.map
            (λ (r : ConvolutionCoverageReport). r.output_zero_count)
            (coverage_report T b source target)
  unfolding output_zero_count coverage_report matmul_report
  output_zero_count-report matmul source target = refl
  output_zero_count-report (gather_scatter t) source target =
      ap some (sym (degree_summary-zeros (output_degrees T t)))
  output_zero_count-report (pred_gather_igemm t k s) source target =
      ap some (sym (degree_summary-zeros (output_degrees T t)))
  output_zero_count-report unknown source target = refl
