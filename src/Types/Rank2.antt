-- ===== src/Types/Rank2.antt =====
-- `to_GenericTensorBroadcastableRank2` of fvdb/types.py, for the category "int" and the dtype
-- torch.int64, and the functions that call it for batches of integer vectors.
use fvdb_core.Prelude.{
  ℕ, zero, suc, Bool, true, false, not, ◌||◌, ◌==◌, List, [], ◌∷◌, length, all, if◌then◌else◌,
}
use fvdb_core.Prelude.Int.{ℤ, pos, pos_part, leb_ℤ}
use fvdb_core.Prelude.Results.{
  Result, ok, raise, type_error, value_error, runtime_error, raise_if, ◌>>=◌, ◌>>◌,
}
use fvdb_core.Types.{
  Dtype, is_int_dtype, ValueConstraint, unconstrained, Numbers, Item, Argument, sequences,
  matrix_tensor, matrix_array, is_numeric_max_rank2,
}
use fvdb_core.Types.Rank1.{
  Values, zero_d, one_d, broadcast_sizes, repeat, any_violates, refuses, tensor_of,
  to_generic_rank1,
}

-- An integer tensor of at most two dimensions: with two, its number of columns and its rows.
pub data Matrix : Type 0 where
  low : Values → Matrix
  two_d : ℕ → List (List ℤ) → Matrix

-- One row, stretched to a number of columns.
abbrev pub stretch : ℕ → List ℤ → Result (List ℤ)
stretch n (value ∷ []) = ok (repeat n value)
stretch n values = if length values == n then ok values else raise runtime_error

abbrev pub stretch_each : ℕ → List (List ℤ) → Result (List (List ℤ))
stretch_each n [] = ok []
stretch_each n (row ∷ rows) = do
  stretched ← stretch n row
  rest ← stretch_each n rows
  ok (stretched ∷ rest)

abbrev pub repeat_row : ℕ → List ℤ → List (List ℤ)
repeat_row zero row = []
repeat_row (suc n) row = row ∷ repeat_row n row

-- The rows, stretched to a number of rows.
abbrev pub stretch_rows : ℕ → List (List ℤ) → Result (List (List ℤ))
stretch_rows n (row ∷ []) = ok (repeat_row n row)
stretch_rows n rows = if length rows == n then ok rows else raise runtime_error

abbrev pub rows_of : Matrix → ℕ → List (List ℤ)
rows_of (low (zero_d value)) columns = repeat columns value ∷ []
rows_of (low (one_d values)) columns = values ∷ []
rows_of (two_d n rows) columns = rows

-- `result.broadcast_to((rows, columns))`
abbrev pub broadcast_matrix : ℕ → ℕ → Matrix → Result Matrix
broadcast_matrix rows columns result = do
  wide ← stretch_each columns (rows_of result columns)
  full ← stretch_rows rows wide
  ok (two_d columns full)

abbrev pub any_row_violates : ValueConstraint → List (List ℤ) → Bool
any_row_violates constraint [] = false
any_row_violates constraint (row ∷ rows) =
    any_violates constraint row || any_row_violates constraint rows

-- `torch.any(…)`
abbrev pub refuses_matrix : ValueConstraint → Matrix → Bool
refuses_matrix constraint (low values) = refuses constraint values
refuses_matrix constraint (two_d n rows) = any_row_violates constraint rows

-- `torch.broadcast_shapes(result.shape, (rows, columns))`, of a result of at most one dimension
abbrev pub low_shape : ℕ → ℕ → Values → Result (ℕ × ℕ)
low_shape rows columns (zero_d value) = ok (rows, columns)
low_shape rows columns (one_d values) = do
  wide ← broadcast_sizes (length values) columns
  ok (rows, wide)

-- `torch.broadcast_shapes((m, n), (rows, columns))`
abbrev pub matrix_shape : ℕ → ℕ → ℕ → ℕ → Result (ℕ × ℕ)
matrix_shape rows columns m n = do
  high ← broadcast_sizes m rows
  wide ← broadcast_sizes n columns
  ok (high, wide)

module _ (F : Numbers) where
  abbrev pub rows_of_numbers : List (List (Item F)) → Result (List (List ℤ))
  rows_of_numbers [] = ok []
  rows_of_numbers (row ∷ rows) = do
    values ← tensor_of F row
    rest ← rows_of_numbers rows
    ok (values ∷ rest)

  -- A tensor or array of two dimensions.
  abbrev pub matrix_values : ℕ → ℕ → Dtype → ℕ → List (List ℤ) → Result (Matrix × (ℕ × ℕ))
  matrix_values rows columns d n entries = do
    raise_if (not (is_int_dtype d)) value_error
    shape ← matrix_shape rows columns (length entries) n
    ok (two_d n entries, shape)

  -- The values, and the shape that they broadcast to.
  unfoldable pub rank2_values : ℕ → ℕ → Argument F → Result (Matrix × (ℕ × ℕ))
  rank2_values rows columns (sequences first rest) = do
    raise_if (not (all (λ row. length row == length first) rest)) value_error
    shape ← matrix_shape rows columns (suc (length rest)) (length first)
    values ← rows_of_numbers (first ∷ rest)
    ok (two_d (length first) values, shape)
  rank2_values rows columns (matrix_tensor d n entries) = matrix_values rows columns d n entries
  rank2_values rows columns (matrix_array d n entries) = matrix_values rows columns d n entries
  rank2_values rows columns x = do
    values ← to_generic_rank1 F columns unconstrained false x
    shape ← low_shape rows columns values
    ok (low values, shape)

  -- `to_GenericTensorBroadcastableRank2`
  unfoldable pub to_generic_rank2 : ℕ → ℕ → ValueConstraint → Bool → Argument F → Result Matrix
  to_generic_rank2 rows columns constraint do_broadcast_to x = do
    raise_if (not (is_numeric_max_rank2 F x)) type_error
    result ← rank2_values rows columns x
    raise_if (refuses_matrix constraint result.0) value_error
    if do_broadcast_to then broadcast_matrix result.1.0 result.1.1 result.0 else ok result.0

  -- `to_IntegerTensorBroadcastableRank2`
  unfoldable pub to_integer_rank2 : ℕ → ℕ → ValueConstraint → Bool → Argument F → Result Matrix
  to_integer_rank2 = to_generic_rank2

  -- `to_Vec3iBatch`
  unfoldable pub to_vec3i_batch : ValueConstraint → Argument F → Result Matrix
  to_vec3i_batch constraint x = to_integer_rank2 1 3 constraint true x

  -- `to_Vec3iBatchBroadcastable`
  unfoldable pub to_vec3i_batch_broadcastable : ValueConstraint → Argument F → Result Matrix
  to_vec3i_batch_broadcastable constraint x = to_integer_rank2 1 3 constraint false x

  -- `to_Vec2iBatch`
  unfoldable pub to_vec2i_batch : ValueConstraint → Argument F → Result Matrix
  to_vec2i_batch constraint x = to_integer_rank2 1 2 constraint true x

  -- `to_VecNiBatch`
  unfoldable pub to_vecni_batch : ℤ → ValueConstraint → Argument F → Result Matrix
  to_vecni_batch n constraint x = do
    raise_if (leb_ℤ n (pos 0)) value_error
    to_integer_rank2 1 (pos_part n) constraint true x

  -- `to_VecNiBatchBroadcastable`
  unfoldable pub to_vecni_batch_broadcastable : ℤ → ValueConstraint → Argument F → Result Matrix
  to_vecni_batch_broadcastable n constraint x = do
    raise_if (leb_ℤ n (pos 0)) value_error
    to_integer_rank2 1 (pos_part n) constraint false x
