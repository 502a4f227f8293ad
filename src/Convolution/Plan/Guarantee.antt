-- ===== src/Convolution/Plan/Guarantee.antt =====
-- What a returned plan guarantees of its coverage.
use fvdb_core.Prelude.{
  ℕ, ◌<◌, ◌≡◌, ◌≢◌, refl, subst, sym, ap, ap₂, ◌∙◌, Bool, true, false, Option, none, some, List,
  arith, ◌⊎◌, inl, inr, Option-cases,
}
use fvdb_core.Prelude.Results.{ok}
use fvdb_core.Convolution.Residues.{GeometryKey}
use fvdb_core.Convolution.Policy.{
  ConvolutionTopologyPolicy, complete, resolve_topology_policy_iff, policy_for,
}
use fvdb_core.Convolution.Coverage.Tensors.{IndexTensors}
use fvdb_core.Convolution.Coverage.Backend.{
  GatherScatterDefaultTopology, Backend, matmul, gather_scatter, pred_gather_igemm, unknown,
  IsRulebook,
}
use fvdb_core.Convolution.Coverage.Degrees.{rulebook}
use fvdb_core.Convolution.Coverage.Rows.{HasEdge, output_zero_count-HasEdge}
use fvdb_core.Convolution.Coverage.Report.{output_zero_count, validate_coverage_policy}
use fvdb_core.Convolution.Natives.{Natives}
use fvdb_core.Convolution.Plan.Types.{Options, PositiveVec3i, ConvolutionPlan}
use fvdb_core.Convolution.Plan.Factories.{make_plan, from_grid_batch, from_grid_batch_transposed}
use fvdb_core.Convolution.Plan.Transpose.{from_plan_transposed, plan_coverage_report, cached_report}
use fvdb_core.Convolution.Plan.Invariant.{IsPlan, BackendFits}
use fvdb_core.Convolution.Plan.Invariant.Identity.{IsFresh}
use fvdb_core.Convolution.Plan.Invariant.Made.{make_plan-Origin, make_plan-IsPlan}
use fvdb_core.Convolution.Plan.Adjoint.Exchange.{
  IsCoherent, from_plan_transposed-IsPlan, from_plan_transposed-IsCoherent,
}
use fvdb_core.Convolution.Coverage.Report.{coverage_report, swap_coverage_report}
use fvdb_core.Convolution.Coverage.Cache.Invariant.{answer}

output_zero_count-none :
    (T : IndexTensors) (b : Backend) → output_zero_count T b ≡ none → b ≡ unknown
unfolding output_zero_count
output_zero_count-none T matmul e = cc
output_zero_count-none T (gather_scatter t) e = cc
output_zero_count-none T (pred_gather_igemm t k s) e = cc
output_zero_count-none T unknown e = refl

-- Validation of a known backend under the complete policy, or under strict coverage, passes only
-- where no output row is without an edge.
validate_coverage_policy-zero :
    (T : IndexTensors) (b : Backend) (policy : ConvolutionTopologyPolicy) (strict : Bool)
    → ((policy ≡ complete) ⊎ (strict ≡ true))
    → b ≢ unknown
    → validate_coverage_policy T b policy strict ≡ ok tt
    → output_zero_count T b ≡ some 0
unfolding validate_coverage_policy
validate_coverage_policy-zero T b policy strict wanted known e =
    elim (Option-cases (output_zero_count T b)) [
      | inl no_count ↦ absurd (known (output_zero_count-none T b no_count))
      | inr (z, ez) ↦ ground arith
    ]

module _ (N : Natives) (T : IndexTensors) (V : PositiveVec3i) where
  open V use {Argument}
  open N use {total_voxels}

  ne_unknown : (p : ConvolutionPlan N) → IsPlan N p → p.backend ≢ unknown
  ne_unknown p v e =
      subst
        (λ b.
          BackendFits N b p.source_grid p.target_grid p.geometry.kernel_size p.geometry.stride
            p.channel_pairs p.transposed)
        e v.fits

  make_plan-zero :
      (transposed : Bool) (kernel_size stride : Argument) (source : N.GridBatch)
      (target : Option N.GridBatch) (options : Options) (seen : List GeometryKey)
      (p : ConvolutionPlan N)
      → ((target ≡ none) ⊎ (options.strict_output_coverage ≡ true))
      → (make_plan N T V transposed kernel_size stride source target options seen).0 ≡ ok p
      → output_zero_count T p.backend ≡ some 0
  unfolding output_zero_count
  make_plan-zero transposed kernel_size stride source target options seen p wanted e =
      let o = make_plan-Origin N T V transposed kernel_size stride source target options seen p e in
      let v = make_plan-IsPlan N T V transposed kernel_size stride source target options seen p e in
      elim o.way [
        | inl early ↦ ap (output_zero_count T) early.matmul_backend
        | inr steps ↦
            let same : p.backend ≡ steps.b =
              ap (λ (q : ConvolutionPlan N). q.backend) steps.result in
            ap (output_zero_count T) same
            ∙ validate_coverage_policy-zero T steps.b o.policy options.strict_output_coverage
                (elim wanted [
                  | inl generated ↦ inl (
                      ((resolve_topology_policy_iff target options.topology_policy o.policy).0
                        o.resolved).0
                      ∙ ap policy_for generated)
                  | inr strict ↦ inr strict
                ])
                (λ u. ne_unknown p v (same ∙ u)) steps.covered
      ]

  -- An output row of a plan takes part: the plan multiplies the features of one grid that is source and
  -- target, or its rulebook has an edge into the row.
  abbrev pub IsCovered : ConvolutionPlan N → ℕ → Type 0
  IsCovered p row =
      ((p.backend ≡ matmul) × (N.is_same p.source_grid p.target_grid ≡ true))
      ⊎ ((t : GatherScatterDefaultTopology) × (rulebook p.backend ≡ some t) × HasEdge t row)

  -- A plan that satisfies the invariant of plans and counts no row without an edge covers every row.
  zero_count-IsCovered :
      (p : ConvolutionPlan N) (b : Backend) (row : ℕ)
      → p.backend ≡ b
      → IsPlan N p
      → ((t : GatherScatterDefaultTopology)
          → rulebook p.backend ≡ some t
          → IsRulebook t × (t.output_total_voxels ≡ total_voxels p.target_grid))
      → output_zero_count T p.backend ≡ some 0
      → row < total_voxels p.target_grid
      → IsCovered p row
  zero_count-IsCovered p matmul row e v sound z lt =
      let fits =
        subst
          (λ b.
            BackendFits N b p.source_grid p.target_grid p.geometry.kernel_size p.geometry.stride
              p.channel_pairs p.transposed)
          e v.fits in
      inl (e, fits.2)
  zero_count-IsCovered p (gather_scatter t) row e v sound z lt =
      let (valid, rows) = sound t (ap rulebook e) in
      inr (
        t,
        ap rulebook e,
        output_zero_count-HasEdge T p.backend t row (ap rulebook e) valid z
            (subst (λ n. row < n) (sym rows) lt),
      )
  zero_count-IsCovered p (pred_gather_igemm t k s) row e v sound z lt =
      let (valid, rows) = sound t (ap rulebook e) in
      inr (
        t,
        ap rulebook e,
        output_zero_count-HasEdge T p.backend t row (ap rulebook e) valid z
            (subst (λ n. row < n) (sym rows) lt),
      )
  zero_count-IsCovered p unknown row e v sound z lt = absurd (ne_unknown p v e)

  -- In a plan that `from_grid_batch` returns for a generated target, or with strict output coverage, every
  -- row of the target grid takes part: the plan multiplies the features of one grid that is source and
  -- target, or its rulebook has an edge from a feature row into the row. Of the native rulebook it is assumed
  -- that its indices are in range, as many of them on both sides, and that its output rows are the
  -- voxels of the target grid.
  pub from_grid_batch-covers :
      (kernel_size stride : Argument) (source : N.GridBatch) (target : Option N.GridBatch)
      (options : Options) (seen : List GeometryKey) (p : ConvolutionPlan N) (row : ℕ)
      → ((target ≡ none) ⊎ (options.strict_output_coverage ≡ true))
      → (from_grid_batch N T V kernel_size stride source target options seen).0 ≡ ok p
      → ((t : GatherScatterDefaultTopology)
          → rulebook p.backend ≡ some t
          → IsRulebook t × (t.output_total_voxels ≡ total_voxels p.target_grid))
      → row < total_voxels p.target_grid
      → IsCovered p row
  unfolding from_grid_batch
  from_grid_batch-covers kernel_size stride source target options seen p row wanted e sound lt =
      zero_count-IsCovered p p.backend row refl
        (make_plan-IsPlan N T V false kernel_size stride source target options seen p e) sound
        (make_plan-zero false kernel_size stride source target options seen p wanted e) lt

  -- The plans that a program can have: those of the factories, and the transposes of such plans.
  pub data Made : ConvolutionPlan N → Type 0 where
    forward :
        (kernel_size stride : Argument) (source : N.GridBatch) (target : Option N.GridBatch)
        (options : Options) (seen : List GeometryKey) (p : ConvolutionPlan N)
        → (from_grid_batch N T V kernel_size stride source target options seen).0 ≡ ok p
        → Made p
    backward :
        (kernel_size stride : Argument) (source : N.GridBatch) (target : Option N.GridBatch)
        (options : Options) (seen : List GeometryKey) (p : ConvolutionPlan N)
        → (from_grid_batch_transposed N T V kernel_size stride source target options seen).0 ≡ ok p
        → Made p
    exact : (p q : ConvolutionPlan N) → Made p → from_plan_transposed N p ≡ ok q → Made q

  IsFresh-IsCoherent : (p : ConvolutionPlan N) → IsFresh N p → IsCoherent N T p
  unfolding plan_coverage_report
  IsFresh-IsCoherent p f =
      ap (answer (cached_report N T p.coverage_report_cache) swap_coverage_report) f.plain
      ∙ ap
          (λ b.
            coverage_report T b (total_voxels p.coverage_report_cache.cached_source)
              (total_voxels p.coverage_report_cache.cached_target))
          f.own_backend
      ∙ ap₂ (λ s t. coverage_report T p.backend (total_voxels s) (total_voxels t)) f.own_source
          f.own_target

  make_plan-IsCoherent :
      (transposed : Bool) (kernel_size stride : Argument) (source : N.GridBatch)
      (target : Option N.GridBatch) (options : Options) (seen : List GeometryKey)
      (p : ConvolutionPlan N)
      → (make_plan N T V transposed kernel_size stride source target options seen).0 ≡ ok p
      → IsCoherent N T p
  make_plan-IsCoherent transposed kernel_size stride source target options seen p e =
      let o = make_plan-Origin N T V transposed kernel_size stride source target options seen p e in
      elim o.way [
        | inl early ↦ IsFresh-IsCoherent p early.fresh
        | inr steps ↦ IsFresh-IsCoherent p (
            subst (IsFresh N) (sym steps.result)
              (record { own_backend = refl; own_source = refl; own_target = refl; plain = refl }))
      ]

  -- Whatever factories made a plan, it satisfies the invariant of plans, and its coverage report is
  -- the one that its own backend and grids give.
  pub Made-IsPlan : (p : ConvolutionPlan N) → Made p → IsPlan N p × IsCoherent N T p
  unfolding from_grid_batch from_grid_batch_transposed
  Made-IsPlan p (forward k s source target options seen _ e) = (
    make_plan-IsPlan N T V false k s source target options seen p e,
    make_plan-IsCoherent false k s source target options seen p e,
  )
  Made-IsPlan p (backward k s source target options seen _ e) = (
    make_plan-IsPlan N T V true k s source target options seen p e,
    make_plan-IsCoherent true k s source target options seen p e,
  )
  Made-IsPlan p (exact o _ made e) =
      let (good, coherent) = Made-IsPlan o made in
      (from_plan_transposed-IsPlan N o p good e, from_plan_transposed-IsCoherent N T o p coherent e)
