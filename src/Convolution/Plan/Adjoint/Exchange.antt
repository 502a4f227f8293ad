-- ===== src/Convolution/Plan/Adjoint/Exchange.antt =====
-- Transposition keeps the invariant of plans, undoes itself, and exchanges the coverage report.
use fvdb_core.Prelude.{
  ◌≡◌, refl, subst, sym, ap, ap₂, ◌∙◌, Bool, true, false, not, Option, none, some,
}
use mathlib.Core.Option
use mathlib.Core.Option.{some-injective}
use fvdb_core.Prelude.Results.{ok, ok-injective}
use fvdb_core.Convolution.Geometry.{ConvolutionGeometry}
use fvdb_core.Convolution.Coverage.Tensors.{IndexTensors}
use fvdb_core.Convolution.Coverage.Backend.{
  Backend, matmul, gather_scatter, pred_gather_igemm, unknown,
}
use fvdb_core.Convolution.Coverage.Report.{
  ConvolutionCoverageReport, coverage_report, swap_coverage_report,
}
use fvdb_core.Convolution.Coverage.Swap.{
  transposed_backend, swap_coverage_report-twice, coverage_report-transposed,
}
use fvdb_core.Convolution.Coverage.Cache.Invariant.{answer}
use fvdb_core.Convolution.Natives.{Natives}
use fvdb_core.Convolution.Compatibility.{compatible_of_valid}
use fvdb_core.Convolution.Plan.Types.{ConvolutionPlan}
use fvdb_core.Convolution.Plan.Transpose.{
  reverse_backend, from_plan_transposed, has_fixed_topology, plan_coverage_report, cached_report,
}
use fvdb_core.Convolution.Plan.Invariant.{IsPlan, BackendFits}
use fvdb_core.Convolution.Plan.Adjoint.{
  reverse_pairs-IsPositivePair, reverse_pairs-twice, Transposes, from_plan_transposed-Transposes,
}

reverse_backend-eq_ok :
    (b b' : Backend) → reverse_backend b ≡ ok b' → transposed_backend b ≡ some b'
unfolding transposed_backend
reverse_backend-eq_ok matmul b' e = ap some (ok-injective _ b' e)
reverse_backend-eq_ok (gather_scatter t) b' e = ap some (ok-injective _ b' e)
reverse_backend-eq_ok (pred_gather_igemm t k s) b' e = ap some (ok-injective _ b' e)
reverse_backend-eq_ok unknown b' e = cc

not-not : (b : Bool) → not (not b) ≡ b
not-not true = refl
not-not false = refl

map-swap-twice :
    (r : Option ConvolutionCoverageReport)
    → Option.map swap_coverage_report (Option.map swap_coverage_report r) ≡ r
map-swap-twice none = refl
map-swap-twice (some r) = ap some (swap_coverage_report-twice r)

module _ (N : Natives) where
  fits_transposed :
      (p q : ConvolutionPlan N) (b b' : Backend)
      → transposed_backend b ≡ some b'
      → Transposes N p q
      → BackendFits N b p.source_grid p.target_grid p.geometry.kernel_size p.geometry.stride
          p.channel_pairs p.transposed
      → BackendFits N b' q.source_grid q.target_grid q.geometry.kernel_size q.geometry.stride
          q.channel_pairs q.transposed
  unfolding transposed_backend
  fits_transposed p q matmul b' e tr f =
      subst
        (λ c.
          BackendFits N c q.source_grid q.target_grid q.geometry.kernel_size q.geometry.stride
            q.channel_pairs q.transposed)
        (some-injective matmul b' e)
        (
          ap (λ (g : ConvolutionGeometry). g.kernel_size) tr.geometry ∙ f.0,
          ap (λ (g : ConvolutionGeometry). g.stride) tr.geometry ∙ f.1,
          ap₂ N.is_same tr.source tr.target ∙ N.is_same_sym p.target_grid p.source_grid ∙ f.2,
        )
  fits_transposed p q (gather_scatter t) b' e tr f =
      subst
        (λ c.
          BackendFits N c q.source_grid q.target_grid q.geometry.kernel_size q.geometry.stride
            q.channel_pairs q.transposed)
        (some-injective _ b' e) tt
  fits_transposed p q (pred_gather_igemm t k s) b' e tr f =
      subst
        (λ c.
          BackendFits N c q.source_grid q.target_grid q.geometry.kernel_size q.geometry.stride
            q.channel_pairs q.transposed)
        (some-injective _ b' e) tt
  fits_transposed p q unknown b' e tr f = cc

  -- The transpose of a plan that satisfies the invariant satisfies it.
  pub from_plan_transposed-IsPlan :
      (p q : ConvolutionPlan N) → IsPlan N p → from_plan_transposed N p ≡ ok q → IsPlan N q
  from_plan_transposed-IsPlan p q v e =
      let tr = from_plan_transposed-Transposes N p q e in
      record {
        shape = rw tr.geometry v.shape;
        compatible = compatible_of_valid N _ tr.valid;
        channels = reverse_pairs-IsPositivePair p.channel_pairs q.channel_pairs tr.pairs v.channels;
        fits =
            fits_transposed p q p.backend q.backend
              (reverse_backend-eq_ok p.backend q.backend tr.backend) tr v.fits;
        provenance = (λ e. cc tr.policy, λ e. cc tr.provenance);
      }

  -- A plan has a fixed topology exactly when its transpose does, and a plan with the matmul backend
  -- that satisfies the invariant of plans has one.
  pub has_fixed_topology-transposed :
      (p q : ConvolutionPlan N)
      → from_plan_transposed N p ≡ ok q
      → IsPlan N p
      → (has_fixed_topology N q ≡ has_fixed_topology N p)
        × (p.backend ≡ matmul → has_fixed_topology N p ≡ true)
  unfolding has_fixed_topology
  has_fixed_topology-transposed p q e v =
      let tr = from_plan_transposed-Transposes N p q e in
      (
        ap₂ N.is_same tr.source tr.target ∙ N.is_same_sym p.target_grid p.source_grid,
        λ b.
            (subst
              (λ c.
                BackendFits N c p.source_grid p.target_grid p.geometry.kernel_size p.geometry.stride
                  p.channel_pairs p.transposed)
              b v.fits).2,
      )

  module _ (T : IndexTensors) where
    open N use {total_voxels}

    answer-not :
        (r : Option ConvolutionCoverageReport) (b : Bool)
        → answer r swap_coverage_report (not b)
          ≡ Option.map swap_coverage_report (answer r swap_coverage_report b)
    answer-not r false = refl
    answer-not none true = refl
    answer-not (some r) true = ap some (sym (swap_coverage_report-twice r))

    -- The coverage report of a transposed plan is that of the plan with its sides exchanged.
    pub report-transposed :
        (p q : ConvolutionPlan N)
        → from_plan_transposed N p ≡ ok q
        → plan_coverage_report N T q ≡ Option.map swap_coverage_report (plan_coverage_report N T p)
    unfolding plan_coverage_report
    report-transposed p q e =
        let tr = from_plan_transposed-Transposes N p q e in
        ap₂ (λ c b. answer (cached_report N T c) swap_coverage_report b) tr.cache tr.swapped
        ∙ answer-not (cached_report N T p.coverage_report_cache) p.coverage_report_swapped

    -- A plan whose cache answers what its own backend and grids would give.
    abbrev pub IsCoherent : ConvolutionPlan N → Type 0
    IsCoherent p =
        plan_coverage_report N T p
        ≡ coverage_report T p.backend (total_voxels p.source_grid) (total_voxels p.target_grid)

    -- Sharing the cache is right: if it answers for a plan what the plan's own backend and grids
    -- give, it does so for the transposed plan.
    pub from_plan_transposed-IsCoherent :
        (p q : ConvolutionPlan N) → IsCoherent p → from_plan_transposed N p ≡ ok q → IsCoherent q
    from_plan_transposed-IsCoherent p q c e =
        let tr = from_plan_transposed-Transposes N p q e in
        report-transposed p q e
        ∙ ap (Option.map swap_coverage_report) c
        ∙ sym (
            coverage_report-transposed T p.backend q.backend (total_voxels p.source_grid)
              (total_voxels p.target_grid) (reverse_backend-eq_ok p.backend q.backend tr.backend))
        ∙ ap₂ (λ s t. coverage_report T q.backend (total_voxels s) (total_voxels t)) (sym tr.source)
            (sym tr.target)

  -- Where both transpositions return, transposing twice gives back the grids, the geometry, the direction, the channel pairs and the
  -- coverage report.
  pub from_plan_transposed-twice :
      (T : IndexTensors) (p q r : ConvolutionPlan N)
      → from_plan_transposed N p ≡ ok q
      → from_plan_transposed N q ≡ ok r
      → (r.source_grid ≡ p.source_grid)
        × (r.target_grid ≡ p.target_grid)
        × (r.geometry ≡ p.geometry)
        × (r.transposed ≡ p.transposed)
        × (r.channel_pairs ≡ p.channel_pairs)
        × (plan_coverage_report N T r ≡ plan_coverage_report N T p)
  from_plan_transposed-twice T p q r e f =
      let tr = from_plan_transposed-Transposes N p q e in
      let back = from_plan_transposed-Transposes N q r f in
      (
        back.source ∙ tr.target,
        back.target ∙ tr.source,
        back.geometry ∙ tr.geometry,
        back.direction ∙ ap not tr.direction ∙ not-not p.transposed,
        ok-injective r.channel_pairs p.channel_pairs
            (sym back.pairs ∙ reverse_pairs-twice p.channel_pairs q.channel_pairs tr.pairs),
        report-transposed T q r f
            ∙ ap (Option.map swap_coverage_report) (report-transposed T p q e)
            ∙ map-swap-twice (plan_coverage_report N T p),
      )
