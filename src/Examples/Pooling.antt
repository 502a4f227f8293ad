-- ===== src/Examples/Pooling.antt =====
-- Tests of the sizes of pooling modules, and an instance of their theorem.
use fvdb_core.Prelude.{◌≡◌, refl, Bool, true, not, none, some, ◌∷◌, ◌==◌}
use fvdb_core.Prelude.Int.{pos, negsuc}
use fvdb_core.Prelude.Results.{Result, ok, raise, value_error, runtime_error}
use fvdb_core.Types.{
  Argument, scalar, int, tensor, is_numeric_max_rank1, is_numeric_scalar, is_numeric_scalar_native,
}
use fvdb_core.Types.Scalar.{to_generic_scalar}
use fvdb_core.Types.Rank1.{zero_d, to_vec3i_broadcastable, to_integer_rank1, to_generic_rank1}
use fvdb_core.Modules.Pooling.{IsSize, make_window, make_window-IsSize}
use fvdb_core.Examples.Converters.{halves}

-- Python's `bool`, of an integer; what else is used here is true.
abbrev truth : Argument halves → Result Bool
truth (scalar (int (pos n))) = ok (not (n == 0))
truth (tensor d (a ∷ b ∷ ns)) = raise runtime_error
truth _ = ok true

-- A window of one number keeps no dimension, and its stride is the window.
plain_window :
    make_window halves truth (scalar (int (pos 2))) none
    ≡ ok (record { kernel_size = zero_d (pos 2); stride = zero_d (pos 2) })
unfolding make_window to_vec3i_broadcastable to_integer_rank1 to_generic_rank1 to_generic_scalar
    is_numeric_max_rank1 is_numeric_scalar is_numeric_scalar_native
plain_window = refl

-- A stride of 0 is taken for none; one below 0 is refused.
no_stride :
    make_window halves truth (scalar (int (pos 2))) (some (scalar (int (pos 0))))
    ≡ ok (record { kernel_size = zero_d (pos 2); stride = zero_d (pos 2) })
unfolding make_window to_vec3i_broadcastable to_integer_rank1 to_generic_rank1 to_generic_scalar
    is_numeric_max_rank1 is_numeric_scalar is_numeric_scalar_native
no_stride = refl

negative_stride :
    make_window halves truth (scalar (int (pos 2))) (some (scalar (int (negsuc 0))))
    ≡ raise value_error
unfolding make_window to_vec3i_broadcastable to_integer_rank1 to_generic_rank1 to_generic_scalar
    is_numeric_max_rank1 is_numeric_scalar is_numeric_scalar_native
negative_stride = refl

make_window-IsSize_example : IsSize (zero_d (pos 2)) × IsSize (zero_d (pos 2))
make_window-IsSize_example =
    make_window-IsSize halves truth (scalar (int (pos 2))) none
      (record { kernel_size = zero_d (pos 2); stride = zero_d (pos 2) }) plain_window
