-- ===== src/Types/Batches.antt =====
-- What the conversions to batches of integer vectors of fvdb/types.py return.
use fvdb_core.Prelude.{
  ℕ, suc, ◌≡◌, ◌≢◌, sym, ap, subst, ◌∙◌, true, false, not, List, ◌∷◌, length, all, ◌==◌,
}
use fvdb_core.Prelude.Int.{ℤ}
use fvdb_core.Prelude.Results.{
  ok, type_error, value_error, raise_if, ◌>>=◌, >>=-eq-ok, ok-injective, raise_if-eq-ok,
}
use fvdb_core.Types.{
  Dtype, ValueConstraint, unconstrained, Numbers, Argument, scalar, tensor_scalar, array_scalar,
  sequence, tensor, array, sequences, matrix_tensor, matrix_array, higher_rank, is_int_dtype,
  is_numeric_max_rank2,
}
use fvdb_core.Types.Rank1.{Values, zero_d, one_d, broadcast_sizes, to_generic_rank1}
use fvdb_core.Types.Lengths.{broadcast_sizes-target}
use fvdb_core.Types.Vec3i.{three_ne_one}
use fvdb_core.Types.Rows.{IsBatch, broadcast_matrix-IsBatch}
use fvdb_core.Types.Rank2.{
  Matrix, low, broadcast_matrix, refuses_matrix, low_shape, matrix_shape, rows_of_numbers,
  matrix_values, rank2_values, to_generic_rank2, to_integer_rank2, to_vec3i_batch,
}

module _ (F : Numbers) (n : ℕ) (many : n ≢ 1) where
  low_shape-columns : (k : ℕ) (vs : Values) (s : ℕ × ℕ) → low_shape k n vs ≡ ok s → s.1 ≡ n
  low_shape-columns k (zero_d v) s e = sym (ap (λ q. q.1) (ok-injective (k, n) s e))
  low_shape-columns k (one_d vs) s e =
      let (wide, ew, e1) = >>=-eq-ok (broadcast_sizes (length vs) n) _ e in
      sym (ap (λ q. q.1) (ok-injective (k, wide) s e1))
      ∙ broadcast_sizes-target (length vs) n wide many ew

  matrix_shape-columns : (k i j : ℕ) (s : ℕ × ℕ) → matrix_shape k n i j ≡ ok s → s.1 ≡ n
  matrix_shape-columns k i j s e =
      let (high, eh, e1) = >>=-eq-ok (broadcast_sizes i k) _ e in
      let (wide, ew, e2) = >>=-eq-ok (broadcast_sizes j n) _ e1 in
      sym (ap (λ q. q.1) (ok-injective (high, wide) s e2)) ∙ broadcast_sizes-target j n wide many ew

  second : {m : Matrix} {s : ℕ × ℕ} {r : Matrix × (ℕ × ℕ)} → ok (m, s) ≡ ok r → s.1 ≡ n → r.1.1 ≡ n
  second {m} {s} {r} e h = ap (λ (q : Matrix × (ℕ × ℕ)). q.1.1) (sym (ok-injective (m, s) r e)) ∙ h

  matrix_values-columns :
      (k : ℕ) (d : Dtype) (j : ℕ) (rows : List (List ℤ)) (r : Matrix × (ℕ × ℕ))
      → matrix_values F k n d j rows ≡ ok r
      → r.1.1 ≡ n
  matrix_values-columns k d j rows r e =
      let (_, _, e1) = >>=-eq-ok (raise_if (not (is_int_dtype d)) value_error) _ e in
      let (s, es, e2) = >>=-eq-ok (matrix_shape k n (length rows) j) _ e1 in
      second e2 (matrix_shape-columns k (length rows) j s es)

  low_values-columns :
      (k : ℕ) (x : Argument F) (r : Matrix × (ℕ × ℕ))
      → (to_generic_rank1 F n unconstrained false x >>= λ vs.
          low_shape k n vs >>= λ s. ok (low vs, s))
        ≡ ok r
      → r.1.1 ≡ n
  low_values-columns k x r e =
      let (vs, _, e1) = >>=-eq-ok (to_generic_rank1 F n unconstrained false x) _ e in
      let (s, es, e2) = >>=-eq-ok (low_shape k n vs) _ e1 in second e2 (low_shape-columns k vs s es)

  rank2_values-columns :
      (k : ℕ) (x : Argument F) (r : Matrix × (ℕ × ℕ)) → rank2_values F k n x ≡ ok r → r.1.1 ≡ n
  unfolding rank2_values
  rank2_values-columns k (sequences first rest) r e =
      let (_, _, e1) =
        >>=-eq-ok (raise_if (not (all (λ row. length row == length first) rest)) value_error) _ e in
      let (s, es, e2) = >>=-eq-ok (matrix_shape k n (suc (length rest)) (length first)) _ e1 in
      let (vs, _, e3) = >>=-eq-ok (rows_of_numbers F (first ∷ rest)) _ e2 in
      second e3 (matrix_shape-columns k (suc (length rest)) (length first) s es)
  rank2_values-columns k (matrix_tensor d j rows) r e = matrix_values-columns k d j rows r e
  rank2_values-columns k (matrix_array d j rows) r e = matrix_values-columns k d j rows r e
  rank2_values-columns k (scalar item) r e = low_values-columns k (scalar item) r e
  rank2_values-columns k (tensor_scalar d a) r e = low_values-columns k (tensor_scalar d a) r e
  rank2_values-columns k (array_scalar d a) r e = low_values-columns k (array_scalar d a) r e
  rank2_values-columns k (sequence items) r e = low_values-columns k (sequence items) r e
  rank2_values-columns k (tensor d vs) r e = low_values-columns k (tensor d vs) r e
  rank2_values-columns k (array d vs) r e = low_values-columns k (array d vs) r e
  rank2_values-columns k higher_rank r e = low_values-columns k higher_rank r e

  pub to_integer_rank2-IsBatch :
      (k : ℕ) (c : ValueConstraint) (x : Argument F) (g : Matrix)
      → to_integer_rank2 F k n c true x ≡ ok g
      → IsBatch n c g
  unfolding to_integer_rank2 to_generic_rank2
  to_integer_rank2-IsBatch k c x g e =
      let (_, _, e1) = >>=-eq-ok (raise_if (not (is_numeric_max_rank2 F x)) type_error) _ e in
      let (r, er, e2) = >>=-eq-ok (rank2_values F k n x) _ e1 in
      let (_, ec, e3) = >>=-eq-ok (raise_if (refuses_matrix c r.0) value_error) _ e2 in
      broadcast_matrix-IsBatch n r.1.0 c r.0 g
        (raise_if-eq-ok (refuses_matrix c r.0) value_error ec)
        (subst (λ j. broadcast_matrix r.1.0 j r.0 ≡ ok g) (rank2_values-columns k x r er) e3)

-- Whatever the argument, what `to_Vec3iBatch` returns is a tensor of two dimensions whose rows have three
-- entries each, all of which satisfy the constraint.
pub to_vec3i_batch-IsBatch :
    (F : Numbers) (c : ValueConstraint) (x : Argument F) (g : Matrix)
    → to_vec3i_batch F c x ≡ ok g
    → IsBatch 3 c g
unfolding to_vec3i_batch
to_vec3i_batch-IsBatch F c x g e = to_integer_rank2-IsBatch F 3 three_ne_one 1 c x g e
