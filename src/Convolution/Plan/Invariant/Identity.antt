-- ===== src/Convolution/Plan/Invariant/Identity.antt =====
-- The plans of the identity short circuit.
use fvdb_core.Prelude.{
  ◌≡◌, refl, subst, ap, ◌∙◌, Bool, true, false, not, ◌||◌, Option, none, some, List, inl, inr,
  arith, Bool-cases, ◌↔◌, Option-cases,
}
use mathlib.Core.Option.{some-injective}
use fvdb_core.Prelude.Results.{ok, >>=-eq-ok, ok-injective, raise_if, value_error}
use fvdb_core.Convolution.Vectors.{Kernel, vec3, map3}
use fvdb_core.Prelude.Int.{pos}
use fvdb_core.Convolution.Geometry.{
  convolution_geometry, convolution_geometry-IsGeometry, convolution_geometry-sizes, all_small,
}
use fvdb_core.Convolution.Policy.{ConvolutionTopologyPolicy, complete, restricted, provenance_of}
use fvdb_core.Convolution.Coverage.Backend.{matmul}
use fvdb_core.Convolution.Natives.{Natives}
use fvdb_core.Convolution.Admission.{ChannelPair, check_channel_pairs, check_channel_pairs_iff}
use fvdb_core.Convolution.Plan.Types.{ConvolutionPlan}
use fvdb_core.Convolution.Plan.Build.{
  vec_is_all, has_finite_transform, identity_target, identity_plan_at, identity_matmul_plan,
}
use fvdb_core.Convolution.Plan.Invariant.{IsPlan}
use fvdb_core.Convolution.Plan.Invariant.Backends.{vec_is_all-one}

pub provenance_of_iff :
    (policy : ConvolutionTopologyPolicy)
    → (policy ≡ complete) ↔ (provenance_of policy ≡ provenance_of complete)
provenance_of_iff complete = (λ e. refl, λ e. refl)
provenance_of_iff restricted = (λ e. cc, λ e. cc)

-- A plan as a factory makes it: its cache computes from the plan's own backend and grids.
pub record IsFresh (N : Natives) (p : ConvolutionPlan N) : Type 0 where
  pub own_backend : p.coverage_report_cache.cached_backend ≡ p.backend
  pub own_source : p.coverage_report_cache.cached_source ≡ p.source_grid
  pub own_target : p.coverage_report_cache.cached_target ≡ p.target_grid
  pub plain : p.coverage_report_swapped ≡ false

-- What is known of a plan of the short circuit.
pub record IsEarly (N : Natives) (p : ConvolutionPlan N) : Type 0 where
  pub good : IsPlan N p
  pub fresh : IsFresh N p
  pub matmul_backend : p.backend ≡ matmul

module _ (N : Natives) (kernel_size stride : Kernel) (source : N.GridBatch)
    (pairs : List ChannelPair) (policy : ConvolutionTopologyPolicy) (transposed : Bool) where
  identity_plan_at-IsEarly :
      (target : N.GridBatch) (p : ConvolutionPlan N)
      → kernel_size ≡ vec3 1 1 1
      → stride ≡ vec3 1 1 1
      → N.is_same source target ≡ true
      → identity_plan_at N kernel_size stride source target pairs policy
          (provenance_of policy)
          transposed
        ≡ ok p
      → IsEarly N p
  unfolding identity_plan_at
  identity_plan_at-IsEarly target p k1 s1 same e =
      let (_, ef, e1) =
        >>=-eq-ok (raise_if (not (has_finite_transform N source)) value_error) _ e in
      let (_, ec, e2) = >>=-eq-ok (check_channel_pairs pairs) _ e1 in
      let (g, eg, e3) =
        >>=-eq-ok (convolution_geometry (map3 pos kernel_size) (map3 pos stride)) _ e2 in
      let (_, _, valid) =
        convolution_geometry-IsGeometry (map3 pos kernel_size) (map3 pos stride) g eg in
      let (gk, gs) =
        convolution_geometry-sizes kernel_size stride g eg
          (all_small kernel_size 1 k1 (omega arith)) (all_small stride 1 s1 (omega arith)) in
      subst (IsEarly N) (ok-injective _ p e3) (record {
        good = record {
          shape = valid;
          compatible = refl;
          channels = (check_channel_pairs_iff pairs).0 ec;
          fits = (gk ∙ k1, gs ∙ s1, same);
          provenance = provenance_of_iff policy;
        };
        fresh = record { own_backend = refl; own_source = refl; own_target = refl; plain = refl };
        matmul_backend = refl;
      })

  identity_target-is_same :
      (target : Option N.GridBatch) (t : N.GridBatch)
      → identity_target N source target ≡ some t
      → N.is_same source t ≡ true
  identity_target-is_same none t e =
      subst (λ u. N.is_same source u ≡ true) (some-injective source t e) (N.is_same_refl source)
  identity_target-is_same (some u) t e = elim (Bool-cases (N.is_same source u)) [
    | inl same ↦ subst (λ v. N.is_same source v ≡ true) (some-injective u t (rw same at e)) same
    | inr other ↦ cc (rw other at e)
  ]

  pub identity_matmul_plan-IsEarly :
      (target : Option N.GridBatch) (p : ConvolutionPlan N)
      → identity_matmul_plan N kernel_size stride source target pairs policy
          (provenance_of policy)
          transposed
        ≡ ok (some p)
      → IsEarly N p
  unfolding identity_matmul_plan
  identity_matmul_plan-IsEarly target p e =
      elim (Bool-cases (not (vec_is_all kernel_size 1) || not (vec_is_all stride 1))) [
        | inl other ↦ cc (rw other at e)
        | inr unit ↦ elim (Option-cases (identity_target N source target)) [
          | inl no_target ↦ cc (rw (unit, no_target) at e)
          | inr (t, et) ↦
              let e1 = rw (unit, et) at e in
              let (q, eq, e2) =
                >>=-eq-ok
                  (identity_plan_at N kernel_size stride source t pairs policy
                    (provenance_of policy) transposed)
                  _ e1 in
              identity_plan_at-IsEarly t p (vec_is_all-one kernel_size (ground arith))
                (vec_is_all-one stride (ground arith)) (identity_target-is_same target t et)
                (eq ∙ ap ok (some-injective q p (ok-injective (some q) (some p) e2)))
        ]
      ]
