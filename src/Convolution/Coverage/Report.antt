-- ===== src/Convolution/Coverage/Report.antt =====
-- `ConvolutionCoverageReport` and the functions of fvdb/convolution_plan.py that make it. Of the two
-- grids they read `total_voxels` only, which stands for them here.
use fvdb_core.Prelude.{
  ℕ, Option, none, some, List, [], ◌∷◌, Bool, false, if◌then◌else◌, ◌==◌, length, ltb, ◌&&◌, not,
}
use fvdb_core.Prelude.Results.{Result, ok, runtime_error, value_error, raise_if}
use fvdb_core.Convolution.Policy.{ConvolutionTopologyPolicy, complete, restricted}
use fvdb_core.Convolution.Coverage.Tensors.{Tensor1, IndexTensors}
use fvdb_core.Convolution.Coverage.Backend.{
  GatherScatterDefaultTopology, Backend, matmul, gather_scatter, pred_gather_igemm, unknown,
}

-- The exact quotient of which Python's `/` stores the nearest float.
pub record Fraction : Type 0 where
  pub numerator : ℕ
  pub denominator : ℕ

abbrev pub zero_fraction : Fraction
zero_fraction = record { numerator = 0; denominator = 1 }

abbrev pub Histogram : Type 0
Histogram = List (ℕ × ℕ)

pub record ConvolutionCoverageReport : Type 0 where
  pub input_row_count : ℕ
  pub output_row_count : ℕ
  pub input_zero_count : ℕ
  pub input_zero_fraction : Fraction
  pub input_degree_min : ℕ
  pub input_degree_max : ℕ
  pub input_degree_histogram : Histogram
  pub output_zero_count : ℕ
  pub output_zero_fraction : Fraction
  pub output_degree_min : ℕ
  pub output_degree_max : ℕ
  pub output_degree_histogram : Histogram

-- The tuple that `_degree_summary` returns.
pub record DegreeSummary : Type 0 where
  pub zero_count : ℕ
  pub zero_part : Fraction
  pub degree_min : ℕ
  pub degree_max : ℕ
  pub histogram : Histogram

-- `_swap_coverage_report`
unfoldable pub swap_coverage_report : ConvolutionCoverageReport → ConvolutionCoverageReport
swap_coverage_report r = record {
  input_row_count = r.output_row_count;
  output_row_count = r.input_row_count;
  input_zero_count = r.output_zero_count;
  input_zero_fraction = r.output_zero_fraction;
  input_degree_min = r.output_degree_min;
  input_degree_max = r.output_degree_max;
  input_degree_histogram = r.output_degree_histogram;
  output_zero_count = r.input_zero_count;
  output_zero_fraction = r.input_zero_fraction;
  output_degree_min = r.input_degree_min;
  output_degree_max = r.input_degree_max;
  output_degree_histogram = r.input_degree_histogram;
}

-- `1 if rows else 0`, `((1, rows),) if rows else ()`
abbrev pub one_if_any : ℕ → ℕ
one_if_any rows = if rows == 0 then 0 else 1

abbrev pub ones_histogram : ℕ → Histogram
ones_histogram rows = if rows == 0 then [] else (1, rows) ∷ []

-- The report of a matmul backend: every row has degree one.
unfoldable pub matmul_report : ℕ → ℕ → ConvolutionCoverageReport
matmul_report input_rows output_rows = record {
  input_row_count = input_rows;
  output_row_count = output_rows;
  input_zero_count = 0;
  input_zero_fraction = zero_fraction;
  input_degree_min = one_if_any input_rows;
  input_degree_max = one_if_any input_rows;
  input_degree_histogram = ones_histogram input_rows;
  output_zero_count = 0;
  output_zero_fraction = zero_fraction;
  output_degree_min = one_if_any output_rows;
  output_degree_max = one_if_any output_rows;
  output_degree_histogram = ones_histogram output_rows;
}

-- The raises of `_validate_coverage_policy`, once the count is known.
abbrev pub check_zero_count : ConvolutionTopologyPolicy → Bool → ℕ → Result (Unit {0})
check_zero_count complete strict zeros = raise_if (ltb 0 zeros) runtime_error
check_zero_count restricted strict zeros = raise_if (strict && ltb 0 zeros) value_error

-- `topology_policy is not COMPLETE and not strict_output_coverage`
abbrev pub skips_coverage : ConvolutionTopologyPolicy → Bool → Bool
skips_coverage complete strict = false
skips_coverage restricted strict = not strict

module _ (T : IndexTensors) where
  open T use {bincount, count_eq, min_item, max_item, unique}

  unfoldable pub degree_summary : Tensor1 → DegreeSummary
  degree_summary degrees =
      let row_count = length degrees in
      if row_count == 0
      then (record {
        zero_count = 0;
        zero_part = zero_fraction;
        degree_min = 0;
        degree_max = 0;
        histogram = [];
      })
      else (record {
        zero_count = count_eq degrees 0;
        zero_part = record { numerator = count_eq degrees 0; denominator = row_count };
        degree_min = min_item degrees;
        degree_max = max_item degrees;
        histogram = unique degrees;
      })

  abbrev pub input_degrees : GatherScatterDefaultTopology → Tensor1
  input_degrees t = bincount t.gather_indices t.feature_total_voxels

  abbrev pub output_degrees : GatherScatterDefaultTopology → Tensor1
  output_degrees t = bincount t.scatter_indices t.output_total_voxels

  -- The report of a backend with a rulebook, from the degrees of its two sides.
  unfoldable pub degrees_report : Tensor1 → Tensor1 → ConvolutionCoverageReport
  degrees_report ins outs =
      let input_summary = degree_summary ins in
      let output_summary = degree_summary outs in
      record {
        input_row_count = length ins;
        output_row_count = length outs;
        input_zero_count = input_summary.zero_count;
        input_zero_fraction = input_summary.zero_part;
        input_degree_min = input_summary.degree_min;
        input_degree_max = input_summary.degree_max;
        input_degree_histogram = input_summary.histogram;
        output_zero_count = output_summary.zero_count;
        output_zero_fraction = output_summary.zero_part;
        output_degree_min = output_summary.degree_min;
        output_degree_max = output_summary.degree_max;
        output_degree_histogram = output_summary.histogram;
      }

  -- `_coverage_report`
  unfoldable pub coverage_report : Backend → ℕ → ℕ → Option ConvolutionCoverageReport
  unfolding degrees_report
  coverage_report matmul source target = some (matmul_report source target)
  coverage_report (gather_scatter t) source target =
      some (degrees_report (input_degrees t) (output_degrees t))
  coverage_report (pred_gather_igemm t k s) source target =
      some (degrees_report (input_degrees t) (output_degrees t))
  coverage_report unknown source target = none

  -- `_output_zero_count`
  unfoldable pub output_zero_count : Backend → Option ℕ
  output_zero_count matmul = some 0
  output_zero_count (gather_scatter t) = some (count_eq (output_degrees t) 0)
  output_zero_count (pred_gather_igemm t k s) = some (count_eq (output_degrees t) 0)
  output_zero_count unknown = none

  -- `_validate_coverage_policy`
  unfoldable pub validate_coverage_policy :
      Backend → ConvolutionTopologyPolicy → Bool → Result (Unit {0})
  validate_coverage_policy backend policy strict =
      if skips_coverage policy strict then ok tt else elim (output_zero_count backend) [
        | none ↦ ok tt
        | some zeros ↦ check_zero_count policy strict zeros
      ]
