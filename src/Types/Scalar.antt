-- ===== src/Types/Scalar.antt =====
-- `to_GenericScalar` of fvdb/types.py, for the category "int" and the dtype torch.int64.
use fvdb_core.Prelude.{Bool, true, false, not}
use fvdb_core.Prelude.Int.{ℤ, pos, ltb_ℤ, leb_ℤ}
use fvdb_core.Prelude.Results.{Result, ok, raise, type_error, value_error, raise_if, ◌>>=◌, ◌>>◌}
use fvdb_core.Types.{
  Dtype, uint32, uint64, is_int_dtype, ValueConstraint, unconstrained, non_negative, positive,
  Numbers, int, Argument, scalar, tensor_scalar, array_scalar, is_numeric_scalar,
}

-- A value that its constraint refuses.
abbrev pub violates : ValueConstraint → ℤ → Bool
violates unconstrained n = false
violates non_negative n = ltb_ℤ n (pos 0)
violates positive n = leb_ℤ n (pos 0)

-- `x.dtype in (np.int32, np.int64, np.uint32, np.uint64)`
abbrev pub is_integer_array_dtype : Dtype → Bool
is_integer_array_dtype uint32 = true
is_integer_array_dtype uint64 = true
is_integer_array_dtype d = is_int_dtype d

module _ (F : Numbers) where
  open F use {of_int}

  -- The branches over the class of the argument; the callers differ in the dtypes they allow an array.
  abbrev pub scalar_value : (Dtype → Bool) → Argument F → Result ℤ
  scalar_value allowed (tensor_scalar d n) = raise_if (not (is_int_dtype d)) value_error >> ok n
  scalar_value allowed (array_scalar d n) = raise_if (not (allowed d)) value_error >> ok n
  scalar_value allowed (scalar (int n)) = of_int n
  scalar_value allowed _ = raise type_error

  -- `to_GenericScalar`
  unfoldable pub to_generic_scalar : (Dtype → Bool) → ValueConstraint → Argument F → Result ℤ
  to_generic_scalar allowed constraint x = do
    raise_if (not (is_numeric_scalar F x)) type_error
    value ← scalar_value allowed x
    raise_if (violates constraint value) value_error
    ok value

  -- `to_IntegerScalar`
  unfoldable pub to_integer_scalar : ValueConstraint → Argument F → Result ℤ
  to_integer_scalar = to_generic_scalar is_integer_array_dtype
