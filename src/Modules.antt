-- ===== src/Modules.antt =====
-- The sparse convolution modules of fvdb/nn/modules.py, on top of the plans. The channels are natural
-- numbers: torch refuses to make weights of a negative number of channels.
pub mod Forward
pub mod Prune
pub mod Pooling
use fvdb_core.Prelude.{
  ℕ, ◌-◌, ◌*◌, ◌%◌, ◌^◌, ◌≡◌, ◌<◌, Bool, true, false, not, ◌&&◌, Option, none, some, List, [], ◌∷◌,
  ◌==◌, ltb, if◌then◌else◌,
}
use fvdb_core.Prelude.Int.{ℤ, pos, negsuc, pos_part, neg_part, ltb_ℤ}
use fvdb_core.Prelude.Results.{
  Result, ok, raise, value_error, assertion_error, attribute_error, zero_division_error, raise_if,
  ◌>>=◌, ◌>>◌,
}
use fvdb_core.Convolution.Vectors.{Kernel, All3}
use fvdb_core.Convolution.Natives.{Natives}
use fvdb_core.Convolution.Plan.Types.{ConvolutionPlan, PositiveVec3i}
use fvdb_core.Convolution.Plan.Execute.{
  Executors, Features, flat, jagged, is_flat, valid_usage, execute,
}

-- What the modules use of torch.
pub record Layers (N : Natives) (E : Executors N) (V : PositiveVec3i) : Type 0 where
  pub zeros : List ℕ → E.X
  -- `w.permute(4, 3, 2, 1, 0)`
  pub permute : E.X → E.X
  -- `w.uniform_(-std, std)`, with the number whose root is the inverse of `std`
  pub uniform : ℕ → E.X → E.X
  pub add : E.X → E.X → Result E.X
  -- `j.jdata = x`
  pub set_jdata : E.J → E.X → Result E.J
  -- A size that was converted before, as an argument.
  pub argument : Kernel → V.Argument
  pub zeros_shape : (s : List ℕ) → E.shape (zeros s) ≡ s
  pub permute_shape :
      (w : E.X) (a b c d e : ℕ)
      → E.shape w ≡ a ∷ b ∷ c ∷ d ∷ e ∷ []
      → E.shape (permute w) ≡ e ∷ d ∷ c ∷ b ∷ a ∷ []
  pub uniform_shape : (n : ℕ) (w : E.X) → E.shape (uniform n w) ≡ E.shape w
  pub argument_converts : (k : Kernel) → All3 (λ n. 0 < n) k → V.to_Vec3i (argument k) ≡ ok k

-- A residue below 2 ^ 64, read as an `int64_t`.
abbrev pub signed_int64 : ℕ → ℤ
signed_int64 r = if ltb r (2 ^ 63) then pos r else negsuc (2 ^ 64 - 1 - r)

-- `int(torch.prod(self.kernel_size).item())`, whose product wraps around
abbrev pub volume : Kernel → ℤ
volume k = signed_int64 ((k.x * k.y * k.z) % (2 ^ 64))

-- `self.in_channels * self.kernel_volume`, where it is not negative, and its negative where it is
abbrev pub fan_in : ℕ → Kernel → ℕ
fan_in in_c k = in_c * pos_part (volume k)

abbrev pub negative_fan_in : ℕ → Kernel → ℕ
negative_fan_in in_c k = in_c * neg_part (volume k)

-- `self.kernel_volume > 1`
abbrev pub has_taps : Kernel → Bool
has_taps k = ltb_ℤ (pos 1) (volume k)

module _ (N : Natives) (E : Executors N) (V : PositiveVec3i) (L : Layers N E V) where
  open E use {X, jdata}
  open L use {zeros, permute, uniform, add, set_jdata, argument}

  pub record SparseConvModule : Type 0 where
    pub in_channels : ℕ
    pub out_channels : ℕ
    pub kernel_size : Kernel
    pub stride : Kernel
    pub weight : X
    pub bias : Option X

  abbrev pub initial_weight : ℕ → ℕ → Kernel → X
  initial_weight in_c out_c k =
      if has_taps k
      then permute (zeros (k.z ∷ k.y ∷ k.x ∷ in_c ∷ out_c ∷ []))
      else zeros (out_c ∷ in_c ∷ [])

  -- `_SparseConv3dBase.__init__`, with `reset_parameters`
  unfoldable pub make_module : ℕ → ℕ → V.Argument → V.Argument → Bool → Result SparseConvModule
  make_module in_c out_c kernel_argument stride_argument has_bias = do
    k ← V.to_Vec3i kernel_argument
    s ← V.to_Vec3i stride_argument
    raise_if (ltb 0 (negative_fan_in in_c k)) value_error
    raise_if (fan_in in_c k == 0) zero_division_error
    ok (record {
      in_channels = in_c;
      out_channels = out_c;
      kernel_size = k;
      stride = s;
      weight = uniform (fan_in in_c k) (initial_weight in_c out_c k);
      bias = if has_bias then some (uniform (fan_in in_c k) (zeros (out_c ∷ []))) else none;
    })

  -- `if self.bias is not None: out_data.jdata = out_data.jdata + self.bias`
  abbrev pub add_bias : Option X → Features N E → Result (Features N E)
  add_bias none out = ok out
  add_bias (some b) (flat x) = raise attribute_error
  add_bias (some b) (jagged j) = do x ← add (jdata j) b; biased ← set_jdata j x; ok (jagged biased)

  -- `SparseConv3d.forward`
  unfoldable pub sparse_conv3d_forward :
      SparseConvModule → Features N E → ConvolutionPlan N → Result (Features N E)
  sparse_conv3d_forward m features plan = do
    valid ←
        valid_usage N V plan (pos m.in_channels) (pos m.out_channels) (argument m.kernel_size)
          (argument m.stride) false
    raise_if (not valid) value_error
    raise_if (is_flat N E features) assertion_error
    out ← execute N E plan features m.weight
    add_bias m.bias out

  -- `SparseConvTranspose3d.forward`
  unfoldable pub sparse_conv_transpose3d_forward :
      SparseConvModule → Features N E → ConvolutionPlan N → Result (Features N E)
  sparse_conv_transpose3d_forward m features plan = do
    valid ←
        valid_usage N V plan (pos m.in_channels) (pos m.out_channels) (argument m.kernel_size)
          (argument m.stride) true
    raise_if (not valid) value_error
    out ← execute N E plan features m.weight
    add_bias m.bias out

  -- The forward function of the class for a direction.
  abbrev pub forward_of :
      Bool → SparseConvModule → Features N E → ConvolutionPlan N → Result (Features N E)
  forward_of false = sparse_conv3d_forward
  forward_of true = sparse_conv_transpose3d_forward
