-- ===== src/Examples/Converters.antt =====
-- Conversions of small arguments.
use fvdb_core.Prelude.{ℕ, ◌≡◌, ◌≢◌, refl, true, none, some, List, [], ◌∷◌, all, arith, ◌/◌}
use fvdb_core.Prelude.Int.{ℤ, pos}
use fvdb_core.Prelude.Results.{ok, raise, value_error}
use fvdb_core.Types.{
  positive, Numbers, Item, int, scalar, sequence, sequences, is_sequence_of_sequences,
  is_numeric_max_rank2, is_numeric_scalar_native, is_sequence_of_numeric_scalar_native,
  is_numeric_scalar, is_numeric_max_rank1,
}
use fvdb_core.Types.Scalar.{to_generic_scalar}
use fvdb_core.Types.Rank1.{one_d, to_generic_rank1, to_integer_rank1, to_vec3i, to_vecni}
use fvdb_core.Types.Rank2.{two_d, rank2_values, to_generic_rank2, to_integer_rank2, to_vec3i_batch}
use fvdb_core.Types.Rows.{IsBatch}
use fvdb_core.Types.Batches.{to_vec3i_batch-IsBatch}
use fvdb_core.Types.Lengths.{IsVec, to_vecni-IsVec}
use fvdb_core.Types.Device.{
  DeviceArgument, Device, Devices, cuda, has_device, no_device, omitted, text, device,
  resolve_device, resolve_device-twice,
}
use fvdb_core.Types.Vec3i.{IsVec3, to_vec3i-IsVec3}
use fvdb_core.Types.Sequences.{to_vec3i-ints, to_vec3i-wrong_length}

-- Numbers with halves, counted in halves.
pub int_of-keeps : (a b : ℤ) → ok a ≡ ok b → b ≡ a
int_of-keeps a b e = cc

abbrev pub halves : Numbers
halves = record {
  Float = ℕ;
  of_int = λ n. ok n;
  of_float = λ n. ok (pos (n / 2));
  of_int_keeps = int_of-keeps;
}

-- A scalar is repeated.
scalar-converted :
    to_vec3i halves positive (scalar (int (pos 2))) ≡ ok (one_d (pos 2 ∷ pos 2 ∷ pos 2 ∷ []))
unfolding to_vec3i to_integer_rank1 to_generic_rank1 to_generic_scalar is_numeric_max_rank1
    is_numeric_scalar is_numeric_scalar_native
scalar-converted = refl

to_vec3i-IsVec3_example : IsVec3 positive (one_d (pos 2 ∷ pos 2 ∷ pos 2 ∷ []))
to_vec3i-IsVec3_example =
    to_vec3i-IsVec3 halves positive (scalar (int (pos 2))) (one_d (pos 2 ∷ pos 2 ∷ pos 2 ∷ []))
      scalar-converted

ints_converted :
    to_vec3i halves positive (sequence (int (pos 3) ∷ int (pos 1) ∷ int (pos 5) ∷ []))
    ≡ ok (one_d (pos 3 ∷ pos 1 ∷ pos 5 ∷ []))
ints_converted =
    to_vec3i-ints halves positive (pos 3) (pos 1) (pos 5) (refl, (refl, (refl, tt)))
      (refl, (refl, (refl, tt)))

abbrev two_items : List (Item halves)
two_items = int (pos 3) ∷ int (pos 1) ∷ []

two_items-numeric : all (is_numeric_scalar_native halves) two_items ≡ true
unfolding is_numeric_scalar_native
two_items-numeric = refl

wrong_length_refused : to_vec3i halves positive (sequence two_items) ≡ raise value_error
wrong_length_refused =
    to_vec3i-wrong_length halves positive two_items two_items-numeric (λ e. omega (arith, e))
      (λ e. omega (arith, e))

four-converted :
    to_vecni halves (pos 4) positive (scalar (int (pos 2)))
    ≡ ok (one_d (pos 2 ∷ pos 2 ∷ pos 2 ∷ pos 2 ∷ []))
unfolding to_vecni to_integer_rank1 to_generic_rank1 to_generic_scalar is_numeric_max_rank1
    is_numeric_scalar is_numeric_scalar_native
four-converted = refl

abbrev four : ℕ
four = 4

four_ne_one : four ≢ 1
four_ne_one e = omega (arith, e)

to_vecni-IsVec_example : IsVec 4 positive (one_d (pos 2 ∷ pos 2 ∷ pos 2 ∷ pos 2 ∷ []))
to_vecni-IsVec_example =
    to_vecni-IsVec halves 4 four_ne_one positive (scalar (int (pos 2)))
      (one_d (pos 2 ∷ pos 2 ∷ pos 2 ∷ pos 2 ∷ [])) four-converted

-- Of size one, `to_VecNi` returns a sequence of three numbers as it is.
one-converted :
    to_vecni halves (pos 1) positive (sequence (int (pos 3) ∷ int (pos 1) ∷ int (pos 5) ∷ []))
    ≡ ok (one_d (pos 3 ∷ pos 1 ∷ pos 5 ∷ []))
unfolding to_vecni to_integer_rank1 to_generic_rank1 is_numeric_max_rank1 is_numeric_scalar
    is_sequence_of_numeric_scalar_native is_numeric_scalar_native
one-converted = refl

abbrev devices : Devices
devices = record {
  Text = ℕ;
  parse = λ n. ok (record { kind = cuda; index = none });
  current_device = ok 1;
}

abbrev second_gpu : Device
second_gpu = record { kind = cuda; index = some 1 }

gpu-resolved : resolve_device devices (text 0) no_device ≡ ok second_gpu
unfolding resolve_device
gpu-resolved = refl

abbrev gpu_name : DeviceArgument devices
gpu_name = text 0

text-ne_omitted : gpu_name ≢ omitted
text-ne_omitted e = cc

resolve_device-twice_example :
    (resolve_device devices (text 0) (has_device second_gpu) ≡ ok second_gpu)
    × (resolve_device devices (device second_gpu) (has_device second_gpu) ≡ ok second_gpu)
resolve_device-twice_example =
    resolve_device-twice devices (text 0) no_device (has_device second_gpu) second_gpu
      text-ne_omitted gpu-resolved

-- Two rows of three entries.
rows_converted :
    to_vec3i_batch halves positive (
      sequences
        (int (pos 1) ∷ int (pos 2) ∷ int (pos 3) ∷ [])
        ((int (pos 4) ∷ int (pos 5) ∷ int (pos 6) ∷ []) ∷ []))
    ≡ ok (two_d 3 ((pos 1 ∷ pos 2 ∷ pos 3 ∷ []) ∷ (pos 4 ∷ pos 5 ∷ pos 6 ∷ []) ∷ []))
unfolding to_vec3i_batch to_integer_rank2 to_generic_rank2 rank2_values is_numeric_max_rank2
    is_numeric_max_rank1 is_numeric_scalar is_sequence_of_numeric_scalar_native
    is_sequence_of_sequences is_numeric_scalar_native
rows_converted = refl

to_vec3i_batch-IsBatch_example :
    IsBatch 3 positive (two_d 3 ((pos 1 ∷ pos 2 ∷ pos 3 ∷ []) ∷ (pos 4 ∷ pos 5 ∷ pos 6 ∷ []) ∷ []))
to_vec3i_batch-IsBatch_example =
    to_vec3i_batch-IsBatch halves positive
      (sequences (int (pos 1) ∷ int (pos 2) ∷ int (pos 3) ∷ [])
        ((int (pos 4) ∷ int (pos 5) ∷ int (pos 6) ∷ []) ∷ []))
      (two_d 3 ((pos 1 ∷ pos 2 ∷ pos 3 ∷ []) ∷ (pos 4 ∷ pos 5 ∷ pos 6 ∷ []) ∷ [])) rows_converted

-- Rows of different lengths are refused.
ragged_refused :
    to_vec3i_batch halves positive
      (sequences (int (pos 1) ∷ int (pos 2) ∷ int (pos 3) ∷ []) ((int (pos 4) ∷ []) ∷ []))
    ≡ raise value_error
unfolding to_vec3i_batch to_integer_rank2 to_generic_rank2 rank2_values is_numeric_max_rank2
    is_numeric_max_rank1 is_numeric_scalar is_sequence_of_numeric_scalar_native
    is_sequence_of_sequences is_numeric_scalar_native
ragged_refused = refl
