-- ===== src/Convolution/Plan/Invariant/Made.antt =====
-- Both factories make plans that satisfy the invariant.
use fvdb_core.Prelude.{
  ◌≡◌, refl, subst, sym, ap, ◌∙◌, Bool, true, false, Option, some, List, ◌⊎◌, inl, inr,
  Option-cases, ℕ, ◌<◌, ◌^◌, arith,
}
use fvdb_core.Prelude.Results.{ok, >>=-eq-ok, ok-injective}
use fvdb_core.Convolution.Vectors.{Kernel, vec3, map3}
use fvdb_core.Prelude.Int.{pos}
use fvdb_core.Convolution.Geometry.{
  ConvolutionGeometry, convolution_geometry, convolution_geometry-IsGeometry,
  convolution_geometry-sizes, all_small,
}
use fvdb_core.Convolution.Coverage.Backend.{
  Backend, matmul, gather_scatter, pred_gather_igemm, unknown,
}
use fvdb_core.Convolution.Admission.{ChannelPair}
use fvdb_core.Convolution.Residues.{GeometryKey}
use fvdb_core.Convolution.Policy.{ConvolutionTopologyPolicy, resolve_topology_policy}
use fvdb_core.Convolution.Coverage.Tensors.{IndexTensors}
use fvdb_core.Convolution.Natives.{Natives}
use fvdb_core.Convolution.Compatibility.{compatible_of_valid}
use fvdb_core.Convolution.Admission.{
  validate_pred_gather_igemm_admission, validate_pred_gather_igemm_grid_admission,
}
use fvdb_core.Convolution.Plan.Types.{BackendName, Options, PositiveVec3i, ConvolutionPlan}
use fvdb_core.Convolution.Plan.Factories.{
  admit, make_plan, from_grid_batch, from_grid_batch_transposed,
}
use fvdb_core.Convolution.Plan.Inversion.{proceed-eq_ok, Steps, general_plan-Steps}
use fvdb_core.Convolution.Plan.Invariant.{BackendFits, IsPlan}
use fvdb_core.Convolution.Plan.Invariant.Backends.{build_backend-fits}
use fvdb_core.Convolution.Plan.Invariant.Identity.{
  IsEarly, identity_matmul_plan-IsEarly, provenance_of_iff,
}

-- Where a backend fits sizes it fits those of their geometry: the sizes that a backend asks for are small,
-- so that the conversion to 32 bits keeps them.
module _ (N : Natives) (source target : N.GridBatch) (kernel_size stride : Kernel)
    (pairs : List ChannelPair) (transposed : Bool) (g : ConvolutionGeometry)
    (shaped : convolution_geometry (map3 pos kernel_size) (map3 pos stride) ≡ ok g) where
  moved :
      (b : Backend) (k s : ℕ)
      → kernel_size ≡ vec3 k k k
      → stride ≡ vec3 s s s
      → k < 2 ^ 31
      → s < 2 ^ 31
      → BackendFits N b source target kernel_size stride pairs transposed
      → BackendFits N b source target g.kernel_size g.stride pairs transposed
  moved b k s ek es hk hs fits =
      let (gk, gs) =
        convolution_geometry-sizes kernel_size stride g shaped (all_small kernel_size k ek hk)
          (all_small stride s es hs) in
      subst (λ (j : Kernel). BackendFits N b source target j g.stride pairs transposed) (sym gk)
        (subst (λ (t : Kernel). BackendFits N b source target kernel_size t pairs transposed)
          (sym gs) fits)

  BackendFits-narrowed :
      (b : Backend)
      → BackendFits N b source target kernel_size stride pairs transposed
      → BackendFits N b source target g.kernel_size g.stride pairs transposed
  BackendFits-narrowed matmul f = moved matmul 1 1 f.0 f.1 (omega arith) (omega arith) f
  BackendFits-narrowed (gather_scatter t) f = tt
  BackendFits-narrowed (pred_gather_igemm t k s) (forth, ek, es, kk, ss, blocked) =
      moved (pred_gather_igemm t k s) k s ek es (ground arith) (ground arith)
        (forth, ek, es, kk, ss, blocked)
  BackendFits-narrowed unknown f = absurd f

module _ (N : Natives) (transposed : Bool) (kernel_size stride : Kernel) (source : N.GridBatch)
    (target : Option N.GridBatch) (options : Options) (policy : ConvolutionTopologyPolicy) where
  admit-IsEarly :
      (name : BackendName) (p : ConvolutionPlan N)
      → options.backend_name ≡ name
      → admit N transposed kernel_size stride source target options policy ≡ ok (some p)
      → IsEarly N p
  unfolding admit
  admit-IsEarly BackendName.dense p n e = cc (rw n at e)
  admit-IsEarly BackendName.other_name p n e = cc (rw n at e)
  admit-IsEarly BackendName.default p n e =
      identity_matmul_plan-IsEarly N kernel_size stride source options.channel_pairs policy
        transposed target p (rw n at e)
  admit-IsEarly BackendName.gather_scatter p n e =
      identity_matmul_plan-IsEarly N kernel_size stride source options.channel_pairs policy
        transposed target p (rw n at e)
  admit-IsEarly BackendName.pred_gather_igemm p n e =
      let (_, _, e1) =
        >>=-eq-ok
          (validate_pred_gather_igemm_admission kernel_size stride options.channel_pairs transposed)
          _ (rw n at e) in
      let (_, _, e2) = >>=-eq-ok (validate_pred_gather_igemm_grid_admission N source target) _ e1 in
      cc e2

  module _ (T : IndexTensors) where
    Steps-IsPlan :
        (p : ConvolutionPlan N)
        → Steps N T transposed kernel_size stride source target options policy p
        → IsPlan N p
    Steps-IsPlan p steps =
        let (_, _, valid) =
          convolution_geometry-IsGeometry (map3 pos kernel_size) (map3 pos stride) steps.g
            steps.shaped in
        let (channels, fits) =
          build_backend-fits N source steps.t kernel_size stride options.channel_pairs transposed
            steps.b options.backend_name steps.built in
        subst (IsPlan N) (sym steps.result) (record {
          shape = valid;
          compatible = compatible_of_valid N _ steps.registered;
          channels = channels;
          fits =
              BackendFits-narrowed N source steps.t kernel_size stride options.channel_pairs
                transposed steps.g steps.shaped steps.b fits;
          provenance = provenance_of_iff policy;
        })

module _ (N : Natives) (T : IndexTensors) (V : PositiveVec3i) where
  open V use {Argument, to_Vec3i}

  -- A plan comes from the short circuit, or from the steps of the general path.
  pub record Origin (transposed : Bool) (kernel_size stride : Argument) (source : N.GridBatch)
      (target : Option N.GridBatch) (options : Options) (p : ConvolutionPlan N) : Type 0 where
    pub k : Kernel
    pub s : Kernel
    pub policy : ConvolutionTopologyPolicy
    pub sized : (to_Vec3i kernel_size ≡ ok k) × (to_Vec3i stride ≡ ok s)
    pub resolved : resolve_topology_policy target options.topology_policy ≡ ok policy
    pub way : IsEarly N p ⊎ Steps N T transposed k s source target options policy p

  pub make_plan-Origin :
      (transposed : Bool) (kernel_size stride : Argument) (source : N.GridBatch)
      (target : Option N.GridBatch) (options : Options) (seen : List GeometryKey)
      (p : ConvolutionPlan N)
      → (make_plan N T V transposed kernel_size stride source target options seen).0 ≡ ok p
      → Origin transposed kernel_size stride source target options p
  unfolding make_plan
  make_plan-Origin transposed kernel_size stride source target options seen p e =
      let (k, ek, e1) = proceed-eq_ok (to_Vec3i kernel_size) _ seen e in
      let (s, es, e2) = proceed-eq_ok (to_Vec3i stride) _ seen e1 in
      let (policy, ep, e3) =
        proceed-eq_ok (resolve_topology_policy target options.topology_policy) _ seen e2 in
      let (early, ea, e4) =
        proceed-eq_ok (admit N transposed k s source target options policy) _ seen e3 in
      record {
        k = k;
        s = s;
        policy = policy;
        sized = (ek, es);
        resolved = ep;
        way = elim (Option-cases early) [
          | inl none_yet ↦ inr (
              general_plan-Steps N T transposed k s source target options policy seen p
                (rw none_yet at e4))
          | inr (q, eq) ↦ inl (
              admit-IsEarly N transposed k s source target options policy options.backend_name p
                refl (ea ∙ ap ok eq ∙ ap (λ r. ok (some r)) (ok-injective q p (rw eq at e4))))
        ];
      }

  pub make_plan-IsPlan :
      (transposed : Bool) (kernel_size stride : Argument) (source : N.GridBatch)
      (target : Option N.GridBatch) (options : Options) (seen : List GeometryKey)
      (p : ConvolutionPlan N)
      → (make_plan N T V transposed kernel_size stride source target options seen).0 ≡ ok p
      → IsPlan N p
  make_plan-IsPlan transposed kernel_size stride source target options seen p e =
      let o = make_plan-Origin transposed kernel_size stride source target options seen p e in
      elim o.way [
        | inl early ↦ early.good
        | inr steps ↦ Steps-IsPlan N transposed o.k o.s source target options o.policy T p steps
      ]

  -- Every plan that `from_grid_batch` returns satisfies the invariant of plans.
  pub from_grid_batch-IsPlan :
      (kernel_size stride : Argument) (source : N.GridBatch) (target : Option N.GridBatch)
      (options : Options) (seen : List GeometryKey) (p : ConvolutionPlan N)
      → (from_grid_batch N T V kernel_size stride source target options seen).0 ≡ ok p
      → IsPlan N p
  unfolding from_grid_batch
  from_grid_batch-IsPlan = make_plan-IsPlan false

  -- So does every plan that `from_grid_batch_transposed` returns.
  pub from_grid_batch_transposed-IsPlan :
      (kernel_size stride : Argument) (source : N.GridBatch) (target : Option N.GridBatch)
      (options : Options) (seen : List GeometryKey) (p : ConvolutionPlan N)
      → (from_grid_batch_transposed N T V kernel_size stride source target options seen).0 ≡ ok p
      → IsPlan N p
  unfolding from_grid_batch_transposed
  from_grid_batch_transposed-IsPlan = make_plan-IsPlan true
