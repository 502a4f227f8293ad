-- ===== src/Convolution/Plan/Adjoint.antt =====
-- What `from_plan_transposed` keeps and what it exchanges.
pub mod Exchange
use fvdb_core.Prelude.{
  ℕ, ◌≡◌, refl, subst, sym, ap, ◌∙◌, Bool, true, false, not, Option, none, some, List, [], ◌∷◌, All,
  ◌⊎◌, inl, inr, arith, Option-cases,
}
use mathlib.Core.Option
use fvdb_core.Prelude.Results.{Result, ok, raise, ◌>>=◌, ◌>>◌, >>=-eq-ok, ok-injective}
use fvdb_core.Convolution.Coverage.Tensors.{IndexTensors}
use fvdb_core.Convolution.Coverage.Backend.{
  Backend, matmul, gather_scatter, pred_gather_igemm, unknown,
}
use fvdb_core.Convolution.Coverage.Report.{
  ConvolutionCoverageReport, coverage_report, swap_coverage_report,
}
use fvdb_core.Convolution.Coverage.Swap.{
  transposed_backend, swap_coverage_report-twice, coverage_report-transposed,
}
use fvdb_core.Convolution.Coverage.Cache.Invariant.{answer}
use fvdb_core.Convolution.Natives.{Natives}
use fvdb_core.Convolution.Compatibility.{validate_transform_compatibility, compatible_of_valid}
use fvdb_core.Convolution.Admission.{ChannelPair, pair, other_length, IsPositivePair}
use fvdb_core.Convolution.Policy.{ConvolutionTopologyPolicy, ConvolutionTopologyProvenance}
use fvdb_core.Convolution.Plan.Types.{ConvolutionPlan}
use fvdb_core.Convolution.Plan.Factories.{oriented_compatibility}
use fvdb_core.Convolution.Plan.Transpose.{
  reverse_pairs, reverse_backend, from_plan_transposed, plan_coverage_report,
}
use fvdb_core.Convolution.Plan.Invariant.{IsPlan, BackendFits}

pub reverse_pairs-IsPositivePair :
    (pairs reversed : List ChannelPair)
    → reverse_pairs pairs ≡ ok reversed
    → All IsPositivePair pairs
    → All IsPositivePair reversed
unfolding reverse_pairs
reverse_pairs-IsPositivePair [] reversed e h = ground arith
reverse_pairs-IsPositivePair (other_length ∷ pairs) reversed e h = cc
reverse_pairs-IsPositivePair (pair a b ∷ pairs) reversed e h =
    let (rest, er, e1) = >>=-eq-ok (reverse_pairs pairs) _ e in
    subst (All IsPositivePair) (ok-injective (pair b a ∷ rest) reversed e1)
      ((h.0.1, h.0.0), reverse_pairs-IsPositivePair pairs rest er h.1)

pub reverse_pairs-twice :
    (pairs reversed : List ChannelPair)
    → reverse_pairs pairs ≡ ok reversed
    → reverse_pairs reversed ≡ ok pairs
unfolding reverse_pairs
reverse_pairs-twice [] reversed e = ap reverse_pairs (sym (ok-injective [] reversed e))
reverse_pairs-twice (other_length ∷ pairs) reversed e = cc
reverse_pairs-twice (pair a b ∷ pairs) reversed e =
    let (rest, er, e1) = >>=-eq-ok (reverse_pairs pairs) _ e in
    ap reverse_pairs (sym (ok-injective (pair b a ∷ rest) reversed e1))
    ∙ rw (reverse_pairs-twice pairs rest er)

module _ (N : Natives) where
  -- The parts of the transposed plan, by the values of its steps.
  pub record Transposes (p q : ConvolutionPlan N) : Type 0 where
    pub pairs : reverse_pairs p.channel_pairs ≡ ok q.channel_pairs
    pub backend : reverse_backend p.backend ≡ ok q.backend
    pub valid : validate_transform_compatibility N q.transform_compatibility ≡ ok tt
    pub source : q.source_grid ≡ p.target_grid
    pub target : q.target_grid ≡ p.source_grid
    pub geometry : q.geometry ≡ p.geometry
    pub direction : q.transposed ≡ not p.transposed
    pub cache : q.coverage_report_cache ≡ p.coverage_report_cache
    pub swapped : q.coverage_report_swapped ≡ not p.coverage_report_swapped
    pub policy : q.topology_policy ≡ ConvolutionTopologyPolicy.restricted
    pub provenance : q.topology_provenance ≡ ConvolutionTopologyProvenance.exact_transpose

  pub from_plan_transposed-Transposes :
      (p q : ConvolutionPlan N) → from_plan_transposed N p ≡ ok q → Transposes p q
  unfolding from_plan_transposed
  from_plan_transposed-Transposes p q e =
      let (pairs, ep, e1) = >>=-eq-ok (reverse_pairs p.channel_pairs) _ e in
      let (_, ev, e2) =
        >>=-eq-ok
          (validate_transform_compatibility N
            (oriented_compatibility N (not p.transposed) p.target_grid p.source_grid p.geometry))
          _ e1 in
      let (b, eb, e3) = >>=-eq-ok (reverse_backend p.backend) _ e2 in
      subst (Transposes p) (ok-injective _ q e3) (record {
        pairs = ep;
        backend = eb;
        valid = ev;
        source = refl;
        target = refl;
        geometry = refl;
        direction = refl;
        cache = refl;
        swapped = refl;
        policy = refl;
        provenance = refl;
      })
