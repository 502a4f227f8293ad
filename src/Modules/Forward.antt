-- ===== src/Modules/Forward.antt =====
-- What a module and a plan that fits it do together.
use fvdb_core.Prelude.{
  ℕ, ◌≡◌, ◌<◌, refl, ap, subst, ◌∙◌, Bool, true, false, [], ◌∷◌, ◌==◌, ltb, if◌then◌else◌,
  Bool-cases, ◌⊎◌, inl, inr,
}
use fvdb_core.Prelude.Int.{pos}
use fvdb_core.Prelude.Results.{
  Result, ok, raise, value_error, zero_division_error, raise_if, ◌>>=◌, >>=-eq-ok, ok-injective,
}
use fvdb_core.Convolution.Vectors.{Kernel, All3}
use fvdb_core.Convolution.Natives.{Natives}
use fvdb_core.Convolution.Coverage.Backend.{matmul}
use fvdb_core.Convolution.Plan.Types.{ConvolutionPlan, PositiveVec3i}
use fvdb_core.Convolution.Plan.Invariant.{IsPlan}
use fvdb_core.Convolution.Plan.Execute.{
  Executors, Features, jagged, valid_usage, matmul_weight_matrix, weight_channels, run_backend,
  execute,
}
use fvdb_core.Convolution.Plan.Execute.Usage.{
  weight_shape, weight_channels-fits, valid_usage_iff, execute-accepted,
}
use fvdb_core.Modules.{
  Layers, has_taps, fan_in, negative_fan_in, SparseConvModule, initial_weight, make_module,
  add_bias, sparse_conv3d_forward, sparse_conv_transpose3d_forward, forward_of,
}

module _ (N : Natives) (E : Executors N) (V : PositiveVec3i) (L : Layers N E V) where
  open E use {X, J, shape}
  open L use {
    zeros, permute, uniform, argument, zeros_shape, permute_shape, uniform_shape, argument_converts,
  }

  -- What `make_module` makes: sizes that are positive, and weights of their shape, or of two dimensions for
  -- a kernel of one tap.
  pub record IsModule (m : SparseConvModule N E V L) : Type 0 where
    pub sizes : All3 (λ n. 0 < n) m.kernel_size
    pub steps : All3 (λ n. 0 < n) m.stride
    pub shaped : shape m.weight ≡ (
        if has_taps m.kernel_size
        then weight_shape N E m.out_channels m.in_channels m.kernel_size
        else m.out_channels ∷ m.in_channels ∷ [])

  initial_weight-shape :
      (in_c out_c : ℕ) (k : Kernel)
      → shape (initial_weight N E V L in_c out_c k)
        ≡ (if has_taps k then weight_shape N E out_c in_c k else out_c ∷ in_c ∷ [])
  initial_weight-shape in_c out_c k = elim (Bool-cases (has_taps k)) [
    | inl several ↦ rw several (
        permute_shape (zeros (k.z ∷ k.y ∷ k.x ∷ in_c ∷ out_c ∷ [])) k.z k.y k.x in_c out_c
          (zeros_shape (k.z ∷ k.y ∷ k.x ∷ in_c ∷ out_c ∷ [])))
    | inr one ↦ rw one (zeros_shape (out_c ∷ in_c ∷ []))
  ]

  make_module-IsModule :
      (in_c out_c : ℕ) (ka sa : V.Argument) (has_bias : Bool) (m : SparseConvModule N E V L)
      → make_module N E V L in_c out_c ka sa has_bias ≡ ok m
      → IsModule m
  unfolding make_module
  make_module-IsModule in_c out_c ka sa has_bias m h =
      let (k, ek, h1) = >>=-eq-ok (V.to_Vec3i ka) _ h in
      let (s, es, h2) = >>=-eq-ok (V.to_Vec3i sa) _ h1 in
      let (_, _, h3) = >>=-eq-ok (raise_if (ltb 0 (negative_fan_in in_c k)) value_error) _ h2 in
      let (_, _, h4) = >>=-eq-ok (raise_if (fan_in in_c k == 0) zero_division_error) _ h3 in
      subst IsModule (ok-injective _ m h4) (record {
        sizes = V.positive ka k ek;
        steps = V.positive sa s es;
        shaped =
            uniform_shape (fan_in in_c k) (initial_weight N E V L in_c out_c k)
            ∙ initial_weight-shape in_c out_c k;
      })

  -- Weights of two dimensions have their channels read by the matmul backend.
  flat_weight-channels :
      (w : X) (out_c in_c : ℕ)
      → shape w ≡ out_c ∷ in_c ∷ []
      → weight_channels N E matmul w ≡ ok (out_c, in_c)
  unfolding weight_channels matmul_weight_matrix
  flat_weight-channels w out_c in_c e = rw e (rw e refl)

  -- The kernel has several taps, so that the weights have five dimensions, or the plan multiplies by
  -- the weights as a matrix.
  abbrev pub SuitsWeights : SparseConvModule N E V L → ConvolutionPlan N → Type 0
  SuitsWeights m p = (has_taps m.kernel_size ≡ true) ⊎ (p.backend ≡ matmul)

  module_channels :
      (m : SparseConvModule N E V L) (p : ConvolutionPlan N)
      → IsModule m
      → IsPlan N p
      → SuitsWeights m p
      → m.kernel_size ≡ p.geometry.kernel_size
      → weight_channels N E p.backend m.weight ≡ ok (m.out_channels, m.in_channels)
  module_channels m p h v suits sizes = elim (Bool-cases (has_taps m.kernel_size)) [
    | inl several ↦
        weight_channels-fits N E p p.backend m.weight m.out_channels m.in_channels v.fits
          (rw several at h.shaped ∙ ap (weight_shape N E m.out_channels m.in_channels) sizes)
    | inr one ↦ elim suits [
      | inl several ↦ absurd (cc (one, several))
      | inr product ↦
          rw product
            (flat_weight-channels m.weight m.out_channels m.in_channels (rw one at h.shaped))
    ]
  ]

  -- What both modules do once the plan was accepted.
  executed :
      (m : SparseConvModule N E V L) (p : ConvolutionPlan N) (j : J) (transposed : Bool)
      → IsModule m
      → IsPlan N p
      → SuitsWeights m p
      → valid_usage N V p
          (pos m.in_channels)
          (pos m.out_channels)
          (argument m.kernel_size)
          (argument m.stride)
          transposed
        ≡ ok true
      → execute N E p (jagged j) m.weight ≡ run_backend N E p p.backend (jagged j) m.weight
  executed m p j transposed h v suits accepted =
      let u =
        (valid_usage_iff N V p (pos m.in_channels) (pos m.out_channels) (argument m.kernel_size)
            (argument m.stride) transposed m.kernel_size m.stride
            (argument_converts m.kernel_size h.sizes) (argument_converts m.stride h.steps)).0
          accepted in
      execute-accepted N E V p m.out_channels m.in_channels m.kernel_size m.stride transposed
        (jagged j) m.weight u (module_channels m p h v suits u.sizes) refl

  -- What a module gives of jagged features and a plan.
  abbrev pub convolved :
      SparseConvModule N E V L → J → ConvolutionPlan N → Bool → Result (Features N E)
  convolved m j p accepted =
      if accepted
      then (run_backend N E p p.backend (jagged j) m.weight >>= add_bias N E V L m.bias)
      else raise value_error

  -- Of a module that was made, a plan that satisfies the invariant of plans and jagged features, where the
  -- module's kernel has several taps or the plan's backend is the matmul one, the forward functions of the
  -- two classes raise a `ValueError` where `valid_usage` refuses the plan, and give what the plan's backend
  -- gives, with the bias added, where it accepts: no check of `execute` before the backend refuses.
  pub forward-convolved :
      (in_c out_c : ℕ) (ka sa : V.Argument) (has_bias : Bool) (m : SparseConvModule N E V L)
      (p : ConvolutionPlan N) (j : J) (transposed accepted : Bool)
      → make_module N E V L in_c out_c ka sa has_bias ≡ ok m
      → IsPlan N p
      → SuitsWeights m p
      → valid_usage N V p
          (pos m.in_channels)
          (pos m.out_channels)
          (argument m.kernel_size)
          (argument m.stride)
          transposed
        ≡ ok accepted
      → forward_of N E V L transposed m (jagged j) p ≡ convolved m j p accepted
  unfolding sparse_conv3d_forward sparse_conv_transpose3d_forward
  forward-convolved in_c out_c ka sa has_bias m p j false false made v suits e = rw e refl
  forward-convolved in_c out_c ka sa has_bias m p j true false made v suits e = rw e refl
  forward-convolved in_c out_c ka sa has_bias m p j false true made v suits e = rw e (
      rw (executed m p j false (make_module-IsModule in_c out_c ka sa has_bias m made) v suits e)
        refl)
  forward-convolved in_c out_c ka sa has_bias m p j true true made v suits e = rw e (
      rw (executed m p j true (make_module-IsModule in_c out_c ka sa has_bias m made) v suits e)
        refl)
