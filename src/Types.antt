-- ===== src/Types.antt =====
-- fvdb/types.py: the conversion of a numeric argument to an integer tensor of three entries, with the
-- default dtype torch.int64.
pub mod Scalar
pub mod Rank1
pub mod Rank2
pub mod Rows
pub mod Batches
pub mod Lengths
pub mod Vec3i
pub mod Sequences
pub mod Device
use fvdb_core.Prelude.{ℕ, ◌≡◌, Bool, true, false, ◌&&◌, ◌||◌, List, [], ◌∷◌, all}
use fvdb_core.Prelude.Int.{ℤ}
use fvdb_core.Prelude.Results.{Result, ok}

-- The dtypes of torch and numpy that the module names, and any other.
pub data Dtype : Type 0 where
  int32 int64 uint32 uint64 float16 float32 float64 other_dtype : Dtype

-- `dtype in (torch.int32, torch.int64)`
abbrev pub is_int_dtype : Dtype → Bool
is_int_dtype int32 = true
is_int_dtype int64 = true
is_int_dtype _ = false

pub data ValueConstraint : Type 0 where
  unconstrained non_negative positive : ValueConstraint

-- What `torch.tensor` makes of a Python number with the dtype int64, which may raise: an integer keeps
-- its value.
pub record Numbers : Type 1 where
  pub Float : Type 0
  pub of_int : ℤ → Result ℤ
  pub of_float : Float → Result ℤ
  pub of_int_keeps : (a b : ℤ) → of_int a ≡ ok b → b ≡ a

module _ (F : Numbers) where
  open F use {Float}

  -- An element of a Python sequence: an integer, a floating-point number, or another object.
  pub data Item : Type 0 where
    int : ℤ → Item
    float : Float → Item
    other_item : Item

  -- An argument. A tensor or array carries its dtype and entries, with two dimensions its number of columns
  -- and its rows; entries of a dtype that is refused are never read. `sequences` has at least one sequence,
  -- the first. `torch.Size` is a sequence of integers. Any other array or nested sequence is of a higher
  -- rank.
  pub data Argument : Type 0 where
    scalar : Item → Argument
    tensor_scalar array_scalar : Dtype → ℤ → Argument
    sequence : List Item → Argument
    tensor array : Dtype → List ℤ → Argument
    sequences : List Item → List (List Item) → Argument
    matrix_tensor matrix_array : Dtype → ℕ → List (List ℤ) → Argument
    higher_rank : Argument

  -- `is_NumericScalarNative`
  unfoldable pub is_numeric_scalar_native : Item → Bool
  is_numeric_scalar_native (int n) = true
  is_numeric_scalar_native (float x) = true
  is_numeric_scalar_native other_item = false

  -- `is_NumericScalar`
  unfoldable pub is_numeric_scalar : Argument → Bool
  is_numeric_scalar (scalar item) = is_numeric_scalar_native item
  is_numeric_scalar (tensor_scalar d n) = true
  is_numeric_scalar (array_scalar d n) = true
  is_numeric_scalar (sequence items) = false
  is_numeric_scalar (tensor d values) = false
  is_numeric_scalar (array d values) = false
  is_numeric_scalar (sequences row rows) = false
  is_numeric_scalar (matrix_tensor d n rows) = false
  is_numeric_scalar (matrix_array d n rows) = false
  is_numeric_scalar higher_rank = false

  -- `is_SequenceOfNumericScalarNative`
  unfoldable pub is_sequence_of_numeric_scalar_native : Argument → Bool
  is_sequence_of_numeric_scalar_native (sequence items) = all is_numeric_scalar_native items
  is_sequence_of_numeric_scalar_native (scalar item) = false
  is_sequence_of_numeric_scalar_native (tensor_scalar d n) = false
  is_sequence_of_numeric_scalar_native (array_scalar d n) = false
  is_sequence_of_numeric_scalar_native (tensor d values) = false
  is_sequence_of_numeric_scalar_native (array d values) = false
  is_sequence_of_numeric_scalar_native (sequences row rows) = false
  is_sequence_of_numeric_scalar_native (matrix_tensor d n rows) = false
  is_sequence_of_numeric_scalar_native (matrix_array d n rows) = false
  is_sequence_of_numeric_scalar_native higher_rank = false

  abbrev pub is_one_dimensional : Argument → Bool
  is_one_dimensional (tensor d values) = true
  is_one_dimensional (array d values) = true
  is_one_dimensional _ = false

  -- `is_NumericMaxRank1`
  unfoldable pub is_numeric_max_rank1 : Argument → Bool
  is_numeric_max_rank1 x =
      is_numeric_scalar x || is_sequence_of_numeric_scalar_native x || is_one_dimensional x

  abbrev pub is_two_dimensional : Argument → Bool
  is_two_dimensional (matrix_tensor d n rows) = true
  is_two_dimensional (matrix_array d n rows) = true
  is_two_dimensional _ = false

  -- `is_SequenceOfSequenceOfNumericScalarNative`, of a sequence that is not empty
  unfoldable pub is_sequence_of_sequences : Argument → Bool
  is_sequence_of_sequences (sequences row rows) =
      all is_numeric_scalar_native row && all (all is_numeric_scalar_native) rows
  is_sequence_of_sequences _ = false

  -- `is_NumericMaxRank2`
  unfoldable pub is_numeric_max_rank2 : Argument → Bool
  is_numeric_max_rank2 x =
      is_numeric_max_rank1 x || is_sequence_of_sequences x || is_two_dimensional x
