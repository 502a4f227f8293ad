-- ===== src/Examples/Usage.antt =====
-- A plan that runs on features, which are shapes here.
use fvdb_core.Prelude.{ℕ, ◌≡◌, refl, ap, ◌↔◌, none, true, false, List, [], ◌∷◌}
use fvdb_core.Prelude.Int.{pos}
use fvdb_core.Prelude.Results.{ok}
use fvdb_core.Convolution.Vectors.{vec3}
use fvdb_core.Convolution.Admission.{channel_pair_supported}
use fvdb_core.Convolution.Plan.Invariant.{IsPlan}
use fvdb_core.Convolution.Plan.Guarantee.{forward, Made-IsPlan}
use fvdb_core.Convolution.Plan.Execute.{
  Executors, Features, flat, valid_usage, weight_channels, run_backend, execute,
}
use fvdb_core.Convolution.Plan.Execute.Usage.{IsUsage, valid_usage_iff, valid_usage-execute}
use fvdb_core.Convolution.Plan.Execute.Admitted.{IsAdmitted, execute-IsAdmitted}
use fvdb_core.Examples.Torch.{torch_tensors}
use fvdb_core.Examples.Grids.{toys, vec3i, fine_grid, plain_options}
use fvdb_core.Examples.Plans.{down, down-made}

abbrev pub leading : List ℕ → List ℕ
leading (o ∷ i ∷ rest) = o ∷ i ∷ []
leading w = w

-- Rows and channels of a product.
abbrev pub product_shape : List ℕ → List ℕ → List ℕ
product_shape (rows ∷ c ∷ []) (out_c ∷ rest) = rows ∷ out_c ∷ []
product_shape x w = x

abbrev pub shapes : Executors toys
shapes = record {
  X = List ℕ;
  J = List ℕ;
  shape = λ x. x;
  first_tap = leading;
  matmul_transposed = λ x w. ok (product_shape x w);
  to_jagged = λ x. x;
  jdata = λ j. j;
  jagged_like = λ j x. ok x;
  grid_jagged_like = λ g x. ok x;
  gs_conv = λ x w t. ok (product_shape x w);
  gs_conv_transpose = λ x w t. ok (product_shape x w);
  pred_gather_igemm_conv = λ x w g h k s. ok (product_shape x w);
  first_tap_shape = λ w o i a b c e h. ap leading e;
}

abbrev weights : List ℕ
weights = 16 ∷ 8 ∷ 3 ∷ 3 ∷ 3 ∷ []

abbrev rows : Features toys shapes
rows = flat (3 ∷ 8 ∷ [])

abbrev out_rows : Features toys shapes
out_rows = flat (3 ∷ 16 ∷ [])

pub down-IsPlan : IsPlan toys down
down-IsPlan =
    (Made-IsPlan toys torch_tensors vec3i down
      (forward (vec3 3 3 3) (vec3 2 2 2) fine_grid none plain_options [] down down-made)).0

pub down-accepted :
    valid_usage toys vec3i down (pos 8) (pos 16) (vec3 3 3 3) (vec3 2 2 2) false ≡ ok true
unfolding valid_usage channel_pair_supported
down-accepted = refl

down-executed : execute toys shapes down rows weights ≡ ok out_rows
unfolding execute run_backend weight_channels channel_pair_supported
down-executed = refl

valid_usage_iff_example :
    (valid_usage toys vec3i down (pos 8) (pos 16) (vec3 3 3 3) (vec3 2 2 2) false ≡ ok true)
    ↔ IsUsage toys vec3i down (pos 8) (pos 16) (vec3 3 3 3) (vec3 2 2 2) false
valid_usage_iff_example =
    valid_usage_iff toys vec3i down (pos 8) (pos 16) (vec3 3 3 3) (vec3 2 2 2) false (vec3 3 3 3)
      (vec3 2 2 2) refl refl

valid_usage-execute_example :
    execute toys shapes down rows weights ≡ run_backend toys shapes down down.backend rows weights
valid_usage-execute_example =
    valid_usage-execute toys shapes vec3i down 16 8 (vec3 3 3 3) (vec3 2 2 2) false (vec3 3 3 3)
      (vec3 2 2 2) rows weights down-IsPlan refl refl down-accepted refl refl

execute-IsAdmitted_example : IsAdmitted toys shapes down rows weights
execute-IsAdmitted_example = execute-IsAdmitted toys shapes down rows weights out_rows down-executed
