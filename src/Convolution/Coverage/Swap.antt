-- ===== src/Convolution/Coverage/Swap.antt =====
-- The report of an exact transpose is the report of the plan with its two sides exchanged, so the two
-- plans may share one cache.
use fvdb_core.Prelude.{ℕ, ◌≡◌, refl, sym, ap, Option, none, some}
use mathlib.Core.Option
use mathlib.Core.Option.{some-injective}
use fvdb_core.Convolution.Coverage.Tensors.{IndexTensors}
use fvdb_core.Convolution.Coverage.Backend.{
  gs_reverse_topology, Backend, matmul, gather_scatter, pred_gather_igemm, unknown,
}
use fvdb_core.Convolution.Coverage.Report.{
  ConvolutionCoverageReport, swap_coverage_report, matmul_report, coverage_report,
}

-- The backend that `from_plan_transposed` gives the transpose of a plan with this backend.
unfoldable pub transposed_backend : Backend → Option Backend
unfolding gs_reverse_topology
transposed_backend matmul = some matmul
transposed_backend (gather_scatter t) = some (gather_scatter (gs_reverse_topology t))
transposed_backend (pred_gather_igemm t k s) = some (gather_scatter (gs_reverse_topology t))
transposed_backend unknown = none

-- Exchanging the sides of a report twice gives it back.
pub swap_coverage_report-twice :
    (r : ConvolutionCoverageReport) → swap_coverage_report (swap_coverage_report r) ≡ r
unfolding swap_coverage_report
swap_coverage_report-twice r = refl

-- What the cache answers for an exact transpose, the exchanged report of the original plan, is what
-- `_coverage_report` finds for the transposed backend and the exchanged grids.
pub coverage_report-transposed :
    (T : IndexTensors) (b b' : Backend) (source target : ℕ)
    → transposed_backend b ≡ some b'
    → coverage_report T b' target source
      ≡ Option.map swap_coverage_report (coverage_report T b source target)
unfolding coverage_report transposed_backend swap_coverage_report matmul_report
coverage_report-transposed T matmul b' source target e =
    ap (λ w. coverage_report T w target source) (sym (some-injective _ _ e))
coverage_report-transposed T (gather_scatter t) b' source target e =
    ap (λ w. coverage_report T w target source) (sym (some-injective _ _ e))
coverage_report-transposed T (pred_gather_igemm t k s) b' source target e =
    ap (λ w. coverage_report T w target source) (sym (some-injective _ _ e))
coverage_report-transposed T unknown b' source target e = cc
