-- ===== src/Convolution/Plan/Execute.antt =====
-- `valid_usage` and `execute` of fvdb/convolution_plan.py, on features and weights of the types that
-- `execute` asserts. The native convolutions and torch's operations on features are a parameter.
pub mod Usage
pub mod Admitted
use fvdb_core.Prelude.{
  ℕ, ◌≡◌, Bool, true, false, not, ◌&&◌, ◌||◌, List, [], ◌∷◌, length, ◌==◌, if◌then◌else◌, ◌<◌,
}
use fvdb_core.Prelude.Int.{ℤ, pos}
use fvdb_core.Prelude.Results.{Result, ok, raise, type_error, value_error, raise_if, ◌>>=◌, ◌>>◌}
use fvdb_core.Convolution.Residues.{kernel_eq}
use fvdb_core.Convolution.Coverage.Backend.{
  GatherScatterDefaultTopology, Backend, matmul, gather_scatter, pred_gather_igemm, unknown,
}
use fvdb_core.Convolution.Natives.{Natives}
use fvdb_core.Convolution.Admission.{
  channel_pair_supported, pred_gather_igemm_channel_pair_supported,
}
use fvdb_core.Convolution.Plan.Types.{ConvolutionPlan, PositiveVec3i}

pub record Executors (N : Natives) : Type 1 where
  pub X : Type 0
  pub J : Type 0
  pub shape : X → List ℕ
  -- `w[:, :, 0, 0, 0]`
  pub first_tap : X → X
  -- `x.matmul(w.transpose(0, 1))`
  pub matmul_transposed : X → X → Result X
  -- `JaggedTensor(x)`, `j.jdata`, `j.jagged_like(x)`, `grid.jagged_like(x)`
  pub to_jagged : X → J
  pub jdata : J → X
  pub jagged_like : J → X → Result J
  pub grid_jagged_like : N.GridBatch → X → Result J
  pub gs_conv : X → X → GatherScatterDefaultTopology → Result X
  pub gs_conv_transpose : X → X → GatherScatterDefaultTopology → Result X
  pub pred_gather_igemm_conv : X → X → N.GridBatch → N.GridBatch → ℕ → ℕ → Result X
  -- Indexing at 0 drops an axis that is not empty.
  pub first_tap_shape :
      (w : X) (o i a b c : ℕ)
      → shape w ≡ o ∷ i ∷ a ∷ b ∷ c ∷ []
      → (0 < a) × (0 < b) × (0 < c)
      → shape (first_tap w) ≡ o ∷ i ∷ []

-- `weights.ndim == 5 and tuple(weights.shape[2:]) == (1, 1, 1)`
abbrev pub is_unit_kernel : List ℕ → Bool
is_unit_kernel (o ∷ i ∷ a ∷ b ∷ c ∷ []) = a == 1 && (b == 1 && c == 1)
is_unit_kernel _ = false

-- `out_c, in_c = weight_matrix.shape`
abbrev pub unpack_two : List ℕ → Result (ℕ × ℕ)
unpack_two (o ∷ i ∷ []) = ok (o, i)
unpack_two _ = raise value_error

-- `weights.shape[0]`, `weights.shape[1]`, unless `weights.ndim < 2`
abbrev pub leading_two : List ℕ → Result (ℕ × ℕ)
leading_two (o ∷ i ∷ rest) = ok (o, i)
leading_two _ = raise value_error

abbrev pub is_pred : Backend → Bool
is_pred (pred_gather_igemm t k s) = true
is_pred _ = false

abbrev pub eq_bool : Bool → Bool → Bool
eq_bool a b = if a then b else not b

module _ (N : Natives) where
  -- `not isinstance(…, _PredGatherIGemmBackend) or …`
  abbrev pub backend_channels_supported : Backend → ℤ → ℤ → Bool
  backend_channels_supported b in_c out_c =
      not (is_pred b) || pred_gather_igemm_channel_pair_supported in_c out_c

  module _ (V : PositiveVec3i) where
    -- `ConvolutionPlan.valid_usage`
    unfoldable pub valid_usage :
        ConvolutionPlan N → ℤ → ℤ → V.Argument → V.Argument → Bool → Result Bool
    valid_usage plan in_c out_c kernel_argument stride_argument transposed = do
      kernel_size ← V.to_Vec3i kernel_argument
      stride ← V.to_Vec3i stride_argument
      ok (
          channel_pair_supported in_c out_c plan.channel_pairs
          && (backend_channels_supported plan.backend in_c out_c
              && (kernel_eq kernel_size plan.geometry.kernel_size
                  && (kernel_eq stride plan.geometry.stride
                      && eq_bool transposed plan.transposed))))

  module _ (E : Executors N) where
    open E use {
      X, J, shape, first_tap, matmul_transposed, to_jagged, jdata, jagged_like, grid_jagged_like,
      gs_conv, gs_conv_transpose, pred_gather_igemm_conv,
    }

    -- `JaggedTensor | torch.Tensor`
    pub data Features : Type 0 where
      flat : X → Features
      jagged : J → Features

    abbrev pub is_flat : Features → Bool
    is_flat (flat x) = true
    is_flat (jagged j) = false

    -- `data.jdata`, once flat data has been wrapped.
    abbrev pub values : Features → X
    values (flat x) = jdata (to_jagged x)
    values (jagged j) = jdata j

    -- `result.jdata if is_flat else result`
    abbrev pub returned : Features → J → Features
    returned (flat x) result = flat (jdata result)
    returned (jagged j) result = jagged result

    -- `_matmul_weight_matrix`
    unfoldable pub matmul_weight_matrix : X → Result X
    matmul_weight_matrix w =
        if length (shape w) == 2
        then ok w
        else if is_unit_kernel (shape w)
        then ok (first_tap w)
        else raise value_error

    -- The output and input channels.
    unfoldable pub weight_channels : Backend → X → Result (ℕ × ℕ)
    weight_channels matmul w = do matrix ← matmul_weight_matrix w; unpack_two (shape matrix)
    weight_channels (gather_scatter t) w = leading_two (shape w)
    weight_channels (pred_gather_igemm t k s) w = leading_two (shape w)
    weight_channels unknown w = leading_two (shape w)

    abbrev pub multiply : Features → X → Result Features
    multiply (flat x) matrix = do y ← matmul_transposed x matrix; ok (flat y)
    multiply (jagged j) matrix = do
      y ← matmul_transposed (jdata j) matrix
      result ← jagged_like j y
      ok (jagged result)

    -- `_GatherScatterConvFn.forward`
    abbrev pub gather_scatter_forward : X → X → GatherScatterDefaultTopology → Bool → Result X
    gather_scatter_forward features w t transposed =
        if transposed then gs_conv_transpose features w t else gs_conv features w t

    -- The part of `execute` after its checks.
    unfoldable pub run_backend : ConvolutionPlan N → Backend → Features → X → Result Features
    run_backend plan matmul features w = do
      matrix ← matmul_weight_matrix w
      multiply features matrix
    run_backend plan (gather_scatter t) features w = do
      out ← gather_scatter_forward (values features) w t plan.transposed
      result ← grid_jagged_like plan.target_grid out
      ok (returned features result)
    run_backend plan (pred_gather_igemm t k s) features w = do
      out ← pred_gather_igemm_conv (values features) w plan.source_grid plan.target_grid k s
      result ← grid_jagged_like plan.target_grid out
      ok (returned features result)
    run_backend plan unknown features w = raise type_error

    -- `ConvolutionPlan.execute`
    unfoldable pub execute : ConvolutionPlan N → Features → X → Result Features
    execute plan features w = do
      channels ← weight_channels plan.backend w
      raise_if (not (channel_pair_supported (pos channels.1) (pos channels.0) plan.channel_pairs))
          value_error
      raise_if (not (backend_channels_supported plan.backend (pos channels.1) (pos channels.0)))
          value_error
      raise_if (is_flat features && not (N.grid_count plan.source_grid == 1)) value_error
      run_backend plan plan.backend features w
