-- ===== src/Convolution/Plan/Execute/Admitted.antt =====
-- What a call of `execute` of fvdb/convolution_plan.py that returns says of its arguments.
use fvdb_core.Prelude.{
  ℕ, ◌≡◌, ◌≢◌, ◌<◌, ◌%◌, refl, ap, ◌∙◌, Bool, true, false, not, ◌&&◌, List, [], ◌∷◌, ◌==◌, length,
  arith, Bool-cases, ◌⊎◌, inl, inr,
}
use fvdb_core.Prelude.Int.{ℤ, pos}
use fvdb_core.Prelude.Floor.{floor_mod}
use fvdb_core.Prelude.Results.{ok, value_error, raise_if, >>=-eq-ok, ok-injective, raise_if-eq-ok}
use fvdb_core.Convolution.Coverage.Backend.{
  Backend, matmul, gather_scatter, pred_gather_igemm, unknown,
}
use fvdb_core.Convolution.Natives.{Natives}
use fvdb_core.Convolution.Admission.{
  ChannelPair, pair, other_length, listed, channel_pair_supported,
  pred_gather_igemm_channel_pair_supported,
}
use fvdb_core.Convolution.Plan.Types.{ConvolutionPlan}
use fvdb_core.Convolution.Plan.Execute.{
  Executors, Features, flat, jagged, is_flat, is_unit_kernel, unpack_two, leading_two,
  backend_channels_supported, matmul_weight_matrix, weight_channels, run_backend, execute,
}

-- The pair stands among the pairs.
abbrev pub Among : ℤ → ℤ → List ChannelPair → Type 0
Among in_c out_c [] = ⊥
Among in_c out_c (p ∷ pairs) = (p ≡ pair in_c out_c) ⊎ Among in_c out_c pairs

listed-Among :
    (in_c out_c : ℕ) (pairs : List ChannelPair)
    → listed (pos in_c) (pos out_c) pairs ≡ true
    → Among (pos in_c) (pos out_c) pairs
listed-Among in_c out_c [] h = cc h
listed-Among in_c out_c (other_length ∷ pairs) h = inr (listed-Among in_c out_c pairs h)
listed-Among in_c out_c (pair a b ∷ pairs) h =
    elim (Bool-cases (listed (pos in_c) (pos out_c) pairs)) [
      | inl later ↦ inr (listed-Among in_c out_c pairs later)
      | inr here ↦ inl (ground arith)
    ]

supported-Among :
    (in_c out_c : ℕ) (pairs : List ChannelPair)
    → channel_pair_supported (pos in_c) (pos out_c) pairs ≡ true
    → (pairs ≡ []) ⊎ Among (pos in_c) (pos out_c) pairs
unfolding channel_pair_supported
supported-Among in_c out_c [] h = inl refl
supported-Among in_c out_c (p ∷ pairs) h = inr (listed-Among in_c out_c (p ∷ pairs) (ground arith))

not-true : (b : Bool) → not b ≡ false → b ≡ true
not-true true h = refl
not-true false h = absurd (cc h)

-- A multiple of 32, and not zero.
abbrev pub IsBlock : ℕ → Type 0
IsBlock c = (0 < c) × (c % 32 ≡ 0)

-- What a backend asks of the channels, and of the axes of the weights after the first two.
abbrev pub TakesChannels : Backend → ℕ → ℕ → Type 0
TakesChannels (pred_gather_igemm t k s) in_c out_c = IsBlock in_c × IsBlock out_c
TakesChannels _ in_c out_c = Unit

abbrev pub TakesKernel : Backend → List ℕ → Type 0
TakesKernel matmul axes = (axes ≡ []) ⊎ (axes ≡ 1 ∷ 1 ∷ 1 ∷ [])
TakesKernel _ axes = Unit

module _ (N : Natives) (E : Executors N) where
  open E use {X, shape, first_tap, first_tap_shape}

  takes_channels :
      (b : Backend) (in_c out_c : ℕ)
      → backend_channels_supported N b (pos in_c) (pos out_c) ≡ true
      → TakesChannels b in_c out_c
  unfolding pred_gather_igemm_channel_pair_supported floor_mod
  takes_channels matmul in_c out_c h = tt
  takes_channels (gather_scatter t) in_c out_c h = tt
  takes_channels (pred_gather_igemm t k s) in_c out_c h = ground arith
  takes_channels unknown in_c out_c h = tt

  -- The shape of weights whose channels were read.
  abbrev WasRead : Backend → X → ℕ × ℕ → Type 0
  WasRead b w c = (axes : List ℕ) × (shape w ≡ c.0 ∷ c.1 ∷ axes) × TakesKernel b axes

  leading_two-WasRead :
      (s : List ℕ) (c : ℕ × ℕ) → leading_two s ≡ ok c → (axes : List ℕ) × (s ≡ c.0 ∷ c.1 ∷ axes)
  leading_two-WasRead [] c h = absurd (cc h)
  leading_two-WasRead (o ∷ []) c h = absurd (cc h)
  leading_two-WasRead (o ∷ i ∷ axes) c h =
      let e = ok-injective (o, i) c h in (axes, ap (λ (d : ℕ × ℕ). d.0 ∷ d.1 ∷ axes) e)

  matmul-WasRead :
      (w : X) (s : List ℕ) (c : ℕ × ℕ)
      → shape w ≡ s
      → weight_channels N E matmul w ≡ ok c
      → WasRead matmul w c
  unfolding weight_channels matmul_weight_matrix
  matmul-WasRead w [] c e h = absurd (cc (rw e at h))
  matmul-WasRead w (o ∷ []) c e h = absurd (cc (rw e at h))
  matmul-WasRead w (o ∷ i ∷ []) c e h =
      let read : unpack_two (o ∷ i ∷ []) ≡ ok c = rw e at (rw e at h) in
      let same = ok-injective (o, i) c read in
      ([], e ∙ ap (λ (d : ℕ × ℕ). d.0 ∷ d.1 ∷ []) same, inl refl)
  matmul-WasRead w (o ∷ i ∷ x ∷ []) c e h = absurd (cc (rw e at h))
  matmul-WasRead w (o ∷ i ∷ x ∷ y ∷ []) c e h = absurd (cc (rw e at h))
  matmul-WasRead w (o ∷ i ∷ x ∷ y ∷ z ∷ []) c e h =
      elim (Bool-cases (is_unit_kernel (o ∷ i ∷ x ∷ y ∷ z ∷ []))) [
        | inr other ↦ absurd (cc (rw other at (rw e at h)))
        | inl unit ↦
            let one_x : x ≡ 1 = ground arith in
            let one_y : y ≡ 1 = ground arith in
            let one_z : z ≡ 1 = ground arith in
            let matrix : shape (first_tap w) ≡ o ∷ i ∷ [] =
              first_tap_shape w o i x y z e (omega arith, omega arith, omega arith) in
            let read : unpack_two (shape (first_tap w)) ≡ ok c = rw unit at (rw e at h) in
            let same = ok-injective (o, i) c (rw matrix at read) in
            (
              x ∷ y ∷ z ∷ [],
              e ∙ ap (λ (d : ℕ × ℕ). d.0 ∷ d.1 ∷ x ∷ y ∷ z ∷ []) same,
              inr (λ j. one_x j ∷ one_y j ∷ one_z j ∷ []),
            )
      ]
  matmul-WasRead w (o ∷ i ∷ x ∷ y ∷ z ∷ u ∷ s) c e h =
      let longer : (length (o ∷ i ∷ x ∷ y ∷ z ∷ u ∷ s) == 2) ≡ false = ground arith in
      absurd (cc (rw longer at (rw e at h)))

  weight_channels-WasRead :
      (b : Backend) (w : X) (c : ℕ × ℕ) → weight_channels N E b w ≡ ok c → WasRead b w c
  unfolding weight_channels
  weight_channels-WasRead matmul w c h = matmul-WasRead w (shape w) c refl h
  weight_channels-WasRead (gather_scatter t) w c h =
      let (axes, e) = leading_two-WasRead (shape w) c h in (axes, e, tt)
  weight_channels-WasRead (pred_gather_igemm t k s) w c h =
      let (axes, e) = leading_two-WasRead (shape w) c h in (axes, e, tt)
  weight_channels-WasRead unknown w c h =
      let (axes, e) = leading_two-WasRead (shape w) c h in (axes, e, tt)

  -- What the arguments of a call that returned are.
  pub record IsAdmitted (p : ConvolutionPlan N) (features : Features N E) (w : X) : Type 0 where
    pub out_c : ℕ
    pub in_c : ℕ
    pub axes : List ℕ
    pub shaped : shape w ≡ out_c ∷ in_c ∷ axes
    pub kernel : TakesKernel p.backend axes
    pub among : (p.channel_pairs ≡ []) ⊎ Among (pos in_c) (pos out_c) p.channel_pairs
    pub channels : TakesChannels p.backend in_c out_c
    pub single : ((j : E.J) × (features ≡ jagged j)) ⊎ (N.grid_count p.source_grid ≡ 1)
    pub known : p.backend ≢ unknown

  single_grid :
      (features : Features N E) (n : ℕ)
      → (is_flat N E features && not (n == 1)) ≡ false
      → ((j : E.J) × (features ≡ jagged j)) ⊎ (n ≡ 1)
  single_grid (jagged j) n h = inl (j, refl)
  single_grid (flat x) n h = inr (ground arith)

  -- Of a call of `execute` that returns, the weights have an output and an input channel as their first two
  -- axes and, for the matmul backend, no other axes or three of length one; the pair of the channels is one of
  -- the plan's, unless it lists none; for the PredGatherIGemm backend both channels are positive multiples of 32; the
  -- features are jagged, or the source is a single grid; and the backend is one of the three.
  pub execute-IsAdmitted :
      (p : ConvolutionPlan N) (features : Features N E) (w : X) (result : Features N E)
      → execute N E p features w ≡ ok result
      → IsAdmitted p features w
  unfolding execute run_backend
  execute-IsAdmitted p features w result e =
      let (c, ec, e1) = >>=-eq-ok (weight_channels N E p.backend w) _ e in
      let (_, el, e2) =
        >>=-eq-ok
          (raise_if (not (channel_pair_supported (pos c.1) (pos c.0) p.channel_pairs)) value_error)
          _ e1 in
      let (_, eb, e3) =
        >>=-eq-ok
          (raise_if (not (backend_channels_supported N p.backend (pos c.1) (pos c.0))) value_error)
          _ e2 in
      let (_, eg, e4) =
        >>=-eq-ok
          (raise_if (is_flat N E features && not (N.grid_count p.source_grid == 1)) value_error) _
          e3 in
      let (axes, shaped, kernel) = weight_channels-WasRead p.backend w c ec in
      record {
        out_c = c.0;
        in_c = c.1;
        axes = axes;
        shaped = shaped;
        kernel = kernel;
        among = supported-Among c.1 c.0 p.channel_pairs (not-true _ (raise_if-eq-ok _ _ el));
        channels = takes_channels p.backend c.1 c.0 (not-true _ (raise_if-eq-ok _ _ eb));
        single = single_grid features (N.grid_count p.source_grid) (raise_if-eq-ok _ _ eg);
        known = λ u. absurd (cc (rw u at e4));
      }
