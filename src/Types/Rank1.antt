-- ===== src/Types/Rank1.antt =====
-- `to_GenericTensorBroadcastableRank1` of fvdb/types.py, for the category "int" and the dtype
-- torch.int64, and the two functions that call it for integer vectors.
use fvdb_core.Prelude.{
  ℕ, zero, suc, Bool, true, false, not, ◌||◌, ◌==◌, List, [], ◌∷◌, length, if◌then◌else◌,
}
use fvdb_core.Prelude.Int.{ℤ, pos, pos_part, leb_ℤ}
use fvdb_core.Prelude.Results.{
  Result, ok, raise, type_error, value_error, runtime_error, raise_if, ◌>>=◌, ◌>>◌,
}
use fvdb_core.Types.{
  is_int_dtype, ValueConstraint, unconstrained, Numbers, Item, int, float, other_item, Argument,
  sequence, tensor, array, is_numeric_max_rank1,
}
use fvdb_core.Types.Scalar.{violates, to_generic_scalar}

-- An integer tensor of at most one dimension.
pub data Values : Type 0 where
  zero_d : ℤ → Values
  one_d : List ℤ → Values

-- `torch.broadcast_shapes((n,), (m,))`: equal sizes, or a size of one, which stretches.
abbrev pub broadcast_sizes : ℕ → ℕ → Result ℕ
broadcast_sizes n m =
    if n == m then ok n else if n == 1 then ok m else if m == 1 then ok n else raise value_error

abbrev pub repeat : ℕ → ℤ → List ℤ
repeat zero value = []
repeat (suc n) value = value ∷ repeat n value

-- `result.broadcast_to((n,))`
abbrev pub broadcast_to : ℕ → Values → Result Values
broadcast_to n (zero_d value) = ok (one_d (repeat n value))
broadcast_to n (one_d (value ∷ [])) = ok (one_d (repeat n value))
broadcast_to n (one_d values) =
    if length values == n then ok (one_d values) else raise runtime_error

abbrev pub any_violates : ValueConstraint → List ℤ → Bool
any_violates constraint [] = false
any_violates constraint (value ∷ values) =
    violates constraint value || any_violates constraint values

-- `torch.any(…)`
abbrev pub refuses : ValueConstraint → Values → Bool
refuses constraint (zero_d value) = violates constraint value
refuses constraint (one_d values) = any_violates constraint values

module _ (F : Numbers) where
  open F use {of_int, of_float}

  -- `torch.tensor(x, device="cpu", dtype=torch.int64)` of a sequence of numbers.
  abbrev pub tensor_of : List (Item F) → Result (List ℤ)
  tensor_of [] = ok []
  tensor_of (int n ∷ items) = do value ← of_int n; values ← tensor_of items; ok (value ∷ values)
  tensor_of (float x ∷ items) = do value ← of_float x; values ← tensor_of items; ok (value ∷ values)
  tensor_of (other_item ∷ items) = raise type_error

  -- The values, and the size that they broadcast to.
  abbrev pub rank1_values : ℕ → Argument F → Result (Values × ℕ)
  rank1_values n (sequence items) = do
    size ← broadcast_sizes (length items) n
    values ← tensor_of items
    ok (one_d values, size)
  rank1_values n (tensor d values) = do
    raise_if (not (is_int_dtype d)) value_error
    size ← broadcast_sizes (length values) n
    ok (one_d values, size)
  rank1_values n (array d values) = do
    raise_if (not (is_int_dtype d)) value_error
    size ← broadcast_sizes (length values) n
    ok (one_d values, size)
  rank1_values n x = do
    value ← to_generic_scalar F is_int_dtype unconstrained x
    ok (zero_d value, n)

  -- `to_GenericTensorBroadcastableRank1`
  unfoldable pub to_generic_rank1 : ℕ → ValueConstraint → Bool → Argument F → Result Values
  to_generic_rank1 n constraint do_broadcast_to x = do
    raise_if (not (is_numeric_max_rank1 F x)) type_error
    result ← rank1_values n x
    raise_if (refuses constraint result.0) value_error
    if do_broadcast_to then broadcast_to result.1 result.0 else ok result.0

  -- `to_IntegerTensorBroadcastableRank1`
  unfoldable pub to_integer_rank1 : ℕ → ValueConstraint → Bool → Argument F → Result Values
  to_integer_rank1 = to_generic_rank1

  -- `to_Vec3i`
  unfoldable pub to_vec3i : ValueConstraint → Argument F → Result Values
  to_vec3i constraint x = to_integer_rank1 3 constraint true x

  -- `to_Vec2i`
  unfoldable pub to_vec2i : ValueConstraint → Argument F → Result Values
  to_vec2i constraint x = to_integer_rank1 2 constraint true x

  -- `to_Vec3iBroadcastable`
  unfoldable pub to_vec3i_broadcastable : ValueConstraint → Argument F → Result Values
  to_vec3i_broadcastable constraint x = to_integer_rank1 3 constraint false x

  -- `to_VecNi`
  unfoldable pub to_vecni : ℤ → ValueConstraint → Argument F → Result Values
  to_vecni n constraint x = do
    raise_if (leb_ℤ n (pos 0)) value_error
    to_integer_rank1 (pos_part n) constraint true x
