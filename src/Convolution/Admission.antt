-- ===== src/Convolution/Admission.antt =====
-- Channel pairs, and the admission tests of the PredGatherIGemm backend, in fvdb/convolution_plan.py.
use fvdb_core.Prelude.{
  ℕ, ◌≡◌, refl, ◌↔◌, ◌⊎◌, Bool, true, false, not, ◌&&◌, ◌||◌, Option, none, some, List, [], ◌∷◌,
  if◌then◌else◌, ◌==◌, arith, length, All, ◌<◌, ◌%◌,
}
use fvdb_core.Prelude.Int.{ℤ, pos, negsuc, ltb_ℤ, leb_ℤ, ◌≤ℤ◌}
use fvdb_core.Prelude.Floor.{floor_mod}
use fvdb_core.Prelude.Results.{Result, ok, raise, value_error, raise_if, ◌>>◌}
use fvdb_core.Convolution.Vectors.{vec3, Kernel}
use fvdb_core.Convolution.Natives.{Natives}

-- An entry of `channel_pairs`: a pair of integers, or a tuple of another length.
pub data ChannelPair : Type 0 where
  pair : ℤ → ℤ → ChannelPair
  other_length : ChannelPair

abbrev eq_ℤ : ℤ → ℤ → Bool
eq_ℤ a b = leb_ℤ a b && leb_ℤ b a

-- `(in_channels, out_channels) in channel_pairs`
abbrev pub listed : ℤ → ℤ → List ChannelPair → Bool
listed in_c out_c [] = false
listed in_c out_c (pair a b ∷ pairs) = eq_ℤ a in_c && eq_ℤ b out_c || listed in_c out_c pairs
listed in_c out_c (other_length ∷ pairs) = listed in_c out_c pairs

-- `_channel_pair_supported`
unfoldable pub channel_pair_supported : ℤ → ℤ → List ChannelPair → Bool
channel_pair_supported in_c out_c pairs =
    if length pairs == 0 then true else listed in_c out_c pairs

-- `_pred_gather_igemm_channel_pair_supported`
unfoldable pub pred_gather_igemm_channel_pair_supported : ℤ → ℤ → Bool
unfolding floor_mod
pred_gather_igemm_channel_pair_supported in_c out_c =
    ltb_ℤ (pos 0) in_c
    && (ltb_ℤ (pos 0) out_c && (floor_mod in_c 32 == 0 && floor_mod out_c 32 == 0))

-- `len(channel_pair) != 2 or channel_pair[0] <= 0 or channel_pair[1] <= 0`
abbrev pub is_malformed : ChannelPair → Bool
is_malformed (pair a b) = leb_ℤ a (pos 0) || leb_ℤ b (pos 0)
is_malformed other_length = true

-- The loop over `channel_pairs` of `_build_backend` and `_identity_matmul_plan`.
unfoldable pub check_channel_pairs : List ChannelPair → Result (Unit {0})
check_channel_pairs [] = ok tt
check_channel_pairs (p ∷ pairs) = raise_if (is_malformed p) value_error >> check_channel_pairs pairs

-- One round of the loop of `_validate_pred_gather_igemm_admission`.
abbrev check_pred_pair : ChannelPair → Result (Unit {0})
check_pred_pair (pair a b) = do
  raise_if (is_malformed (pair a b)) value_error
  raise_if (not (pred_gather_igemm_channel_pair_supported a b)) value_error
check_pred_pair other_length = raise value_error

unfoldable pub check_pred_pairs : List ChannelPair → Result (Unit {0})
check_pred_pairs [] = ok tt
check_pred_pairs (p ∷ pairs) = check_pred_pair p >> check_pred_pairs pairs

-- `len(set(values)) == 1`
abbrev pub is_uniform : Kernel → Bool
is_uniform v = v.x == v.y && v.y == v.z

abbrev pub is_pred_kernel : ℕ → Bool
is_pred_kernel k = k == 3 || (k == 5 || k == 7)

abbrev pub is_pred_stride : ℕ → Bool
is_pred_stride s = s == 1 || s == 2

-- `_validate_pred_gather_igemm_admission`
unfoldable pub validate_pred_gather_igemm_admission :
    Kernel → Kernel → List ChannelPair → Bool → Result (ℕ × ℕ)
validate_pred_gather_igemm_admission kernel_size stride channel_pairs transposed = do
  raise_if transposed value_error
  raise_if (not (is_uniform kernel_size) || not (is_pred_kernel kernel_size.x)) value_error
  raise_if (not (is_uniform stride) || not (is_pred_stride stride.x)) value_error
  check_pred_pairs channel_pairs
  ok (kernel_size.x, stride.x)

-- A pair of positive channel counts.
abbrev pub IsPositivePair : ChannelPair → Type 0
IsPositivePair (pair a b) = (pos 1 ≤ℤ a) × (pos 1 ≤ℤ b)
IsPositivePair other_length = ⊥

-- A pair of positive multiples of 32.
abbrev pub IsBlockedPair : ChannelPair → Type 0
IsBlockedPair (pair (pos a) (pos b)) = (0 < a) × (0 < b) × (a % 32 ≡ 0) × (b % 32 ≡ 0)
IsBlockedPair _ = ⊥

pub check_channel_pairs_iff :
    (pairs : List ChannelPair) → (check_channel_pairs pairs ≡ ok tt) ↔ All IsPositivePair pairs
unfolding check_channel_pairs
check_channel_pairs_iff [] = (λ e. tt, λ h. refl)
check_channel_pairs_iff (pair a b ∷ pairs) = ground (arith, check_channel_pairs_iff pairs)
check_channel_pairs_iff (other_length ∷ pairs) = (λ e. cc, λ h. absurd h.0)

check_pred_pairs_iff :
    (pairs : List ChannelPair) → (check_pred_pairs pairs ≡ ok tt) ↔ All IsBlockedPair pairs
unfolding check_pred_pairs pred_gather_igemm_channel_pair_supported
check_pred_pairs_iff [] = (λ e. tt, λ h. refl)
check_pred_pairs_iff (pair (pos a) (pos b) ∷ pairs) = ground (arith, check_pred_pairs_iff pairs)
check_pred_pairs_iff (pair (pos a) (negsuc b) ∷ pairs) = ground arith
check_pred_pairs_iff (pair (negsuc a) b ∷ pairs) = ground arith
check_pred_pairs_iff (other_length ∷ pairs) = (λ e. cc, λ h. absurd h.0)

-- The backend admits a request, and returns the sizes `k` and `s`, exactly when it is a forward one
-- with a cubic kernel of 3, 5 or 7, a uniform stride of 1 or 2 and channel counts that are positive
-- multiples of 32.
pub validate_pred_gather_igemm_admission_iff :
    (kernel_size stride : Kernel) (pairs : List ChannelPair) (transposed : Bool) (k s : ℕ)
    → (validate_pred_gather_igemm_admission kernel_size stride pairs transposed ≡ ok (k, s)) ↔ (
        (transposed ≡ false)
        × (kernel_size ≡ vec3 k k k)
        × (stride ≡ vec3 s s s)
        × ((k ≡ 3) ⊎ ((k ≡ 5) ⊎ (k ≡ 7)))
        × ((s ≡ 1) ⊎ (s ≡ 2))
        × All IsBlockedPair pairs)
unfolding validate_pred_gather_igemm_admission
validate_pred_gather_igemm_admission_iff kernel_size stride pairs transposed k s = (
  λ e. ground (arith, check_pred_pairs_iff pairs),
  λ h. ground (arith, check_pred_pairs_iff pairs),
)

module _ (N : Natives) where
  open N use {GridBatch, grid_count, device, is_cuda}

  abbrev check_pred_grid : GridBatch → Result (Unit {0})
  check_pred_grid g = do
    raise_if (not (is_cuda (device g))) value_error
    raise_if (not (grid_count g == 1)) value_error

  -- `_validate_pred_gather_igemm_grid_admission`
  unfoldable pub validate_pred_gather_igemm_grid_admission :
      GridBatch → Option GridBatch → Result (Unit {0})
  validate_pred_gather_igemm_grid_admission source none = check_pred_grid source
  validate_pred_gather_igemm_grid_admission source (some target) =
      check_pred_grid source >> check_pred_grid target
