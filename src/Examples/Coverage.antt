-- ===== src/Examples/Coverage.antt =====
-- The coverage report of a small rulebook.
use fvdb_core.Prelude.{◌≡◌, refl, some, length, true, arith}
use mathlib.Core.Option
use fvdb_core.Convolution.Vectors.{vec3}
use fvdb_core.Convolution.Coverage.Backend.{
  GatherScatterDefaultTopology, Backend, IsRulebook, gs_reverse_topology,
}
use fvdb_core.Convolution.Coverage.Report.{
  ConvolutionCoverageReport, coverage_report, swap_coverage_report, output_zero_count,
}
use fvdb_core.Convolution.Coverage.Swap.{transposed_backend, coverage_report-transposed}
use fvdb_core.Convolution.Coverage.Degrees.{
  edges, untouched, coverage_report-edges, output_zero_count-report,
}
use fvdb_core.Examples.Torch.{torch_tensors}
use fvdb_core.Examples.Grids.{fine_grid, coarse_grid, toy_topology}

abbrev rules : GatherScatterDefaultTopology
rules = toy_topology true fine_grid coarse_grid (vec3 3 3 3) (vec3 2 2 2)

rules-IsRulebook : IsRulebook rules
rules-IsRulebook = record { gathers = ground arith; scatters = ground arith; paired = refl }

coverage_report-edges_example :
    (r : ConvolutionCoverageReport) × (coverage_report torch_tensors
        (Backend.gather_scatter rules)
        3
        2
      ≡ some r)
    × (r.input_row_count ≡ 3)
    × (r.output_row_count ≡ 2)
    × (r.input_zero_count ≡ untouched 3 rules.gather_indices)
    × (r.output_zero_count ≡ untouched 2 rules.scatter_indices)
    × (edges r.input_degree_histogram ≡ length rules.gather_indices)
    × (edges r.output_degree_histogram ≡ length rules.gather_indices)
coverage_report-edges_example =
    coverage_report-edges torch_tensors (Backend.gather_scatter rules) rules 3 2 refl
      rules-IsRulebook

output_zero_count-report_example :
    output_zero_count torch_tensors (Backend.gather_scatter rules)
    ≡ Option.map
        (λ (r : ConvolutionCoverageReport). r.output_zero_count)
        (coverage_report torch_tensors (Backend.gather_scatter rules) 3 2)
output_zero_count-report_example =
    output_zero_count-report torch_tensors (Backend.gather_scatter rules) 3 2

reversed-made :
    transposed_backend (Backend.gather_scatter rules)
    ≡ some (Backend.gather_scatter (gs_reverse_topology rules))
unfolding transposed_backend
reversed-made = refl

coverage_report-transposed_example :
    coverage_report torch_tensors (Backend.gather_scatter (gs_reverse_topology rules)) 2 3
    ≡ Option.map swap_coverage_report
        (coverage_report torch_tensors (Backend.gather_scatter rules) 3 2)
coverage_report-transposed_example =
    coverage_report-transposed torch_tensors (Backend.gather_scatter rules)
      (Backend.gather_scatter (gs_reverse_topology rules)) 3 2 reversed-made
