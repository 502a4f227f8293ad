-- ===== src/Types/Sequences.antt =====
-- What `to_Vec3i` of fvdb/types.py does with a sequence of Python numbers.
use fvdb_core.Prelude.{◌≡◌, ◌≢◌, refl, true, false, List, [], ◌∷◌, map, all, All, length, arith}
use fvdb_core.Prelude.Int.{ℤ}
use fvdb_core.Prelude.Results.{ok, raise, value_error}
use fvdb_core.Types.{
  ValueConstraint, Numbers, Item, int, sequence, is_numeric_scalar_native, is_numeric_scalar,
  is_sequence_of_numeric_scalar_native, is_numeric_max_rank1,
}
use fvdb_core.Types.Scalar.{violates}
use fvdb_core.Types.Rank1.{
  one_d, broadcast_sizes, any_violates, tensor_of, to_generic_rank1, to_integer_rank1, to_vec3i,
}

module _ (F : Numbers) where
  ints-numeric : (xs : List ℤ) → all (is_numeric_scalar_native F) (map int xs) ≡ true
  unfolding is_numeric_scalar_native
  ints-numeric [] = refl
  ints-numeric (x ∷ xs) = ints-numeric xs

  tensor_of-ints :
      (xs : List ℤ) → All (λ n. F.of_int n ≡ ok n) xs → tensor_of F (map int xs) ≡ ok xs
  tensor_of-ints [] h = refl
  tensor_of-ints (x ∷ xs) h = rw h.0 (rw (tensor_of-ints xs h.1) refl)

  any_violates-none :
      (c : ValueConstraint) (xs : List ℤ)
      → All (λ n. violates c n ≡ false) xs
      → any_violates c xs ≡ false
  any_violates-none c [] h = refl
  any_violates-none c (x ∷ xs) h = rw h.0 (any_violates-none c xs h.1)

  -- Three integers that int64 holds and that satisfy the constraint are returned as they are.
  pub to_vec3i-ints :
      (c : ValueConstraint) (x y z : ℤ)
      → All (λ n. F.of_int n ≡ ok n) (x ∷ y ∷ z ∷ [])
      → All (λ n. violates c n ≡ false) (x ∷ y ∷ z ∷ [])
      → to_vec3i F c (sequence (int x ∷ int y ∷ int z ∷ [])) ≡ ok (one_d (x ∷ y ∷ z ∷ []))
  unfolding to_vec3i to_integer_rank1 to_generic_rank1 is_numeric_max_rank1 is_numeric_scalar
      is_sequence_of_numeric_scalar_native is_numeric_scalar_native
  to_vec3i-ints c x y z fit held =
      rw (tensor_of-ints (x ∷ y ∷ z ∷ []) fit) (rw (any_violates-none c (x ∷ y ∷ z ∷ []) held) refl)

  -- A sequence of numbers of any length but one and three is refused with a `ValueError`.
  pub to_vec3i-wrong_length :
      (c : ValueConstraint) (items : List (Item F))
      → all (is_numeric_scalar_native F) items ≡ true
      → length items ≢ 1
      → length items ≢ 3
      → to_vec3i F c (sequence items) ≡ raise value_error
  unfolding to_vec3i to_integer_rank1 to_generic_rank1 is_numeric_max_rank1 is_numeric_scalar
      is_sequence_of_numeric_scalar_native
  to_vec3i-wrong_length c items numeric one three =
      let size : broadcast_sizes (length items) 3 ≡ raise value_error = ground arith in
      rw numeric (rw size refl)
