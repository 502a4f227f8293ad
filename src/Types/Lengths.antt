-- ===== src/Types/Lengths.antt =====
-- How many entries the vectors of `to_VecNi` of fvdb/types.py have.
use fvdb_core.Prelude.{
  ℕ, zero, suc, ◌≡◌, ◌≢◌, refl, sym, ap, subst, ◌∙◌, false, not, List, [], ◌∷◌, length, arith,
}
use fvdb_core.Prelude.Int.{ℤ, pos, leb_ℤ}
use fvdb_core.Prelude.Results.{ok, type_error, value_error, raise_if, >>=-eq-ok, ok-injective}
use fvdb_core.Types.{
  ValueConstraint, unconstrained, Numbers, Argument, scalar, tensor_scalar, array_scalar, sequence,
  tensor, array, sequences, matrix_tensor, matrix_array, higher_rank, is_int_dtype,
  is_numeric_max_rank1,
}
use fvdb_core.Types.Scalar.{to_generic_scalar, violates}
use fvdb_core.Types.Rank1.{
  Values, zero_d, one_d, broadcast_sizes, broadcast_to, repeat, refuses, any_violates, tensor_of,
  rank1_values, to_generic_rank1, to_integer_rank1, to_vecni,
}

pub length-repeat : (n : ℕ) (a : ℤ) → length (repeat n a) ≡ n
length-repeat zero a = refl
length-repeat (suc n) a = ap suc (length-repeat n a)

pub repeat-kept :
    (c : ValueConstraint) (n : ℕ) (a : ℤ)
    → violates c a ≡ false
    → any_violates c (repeat n a) ≡ false
repeat-kept c zero a h = refl
repeat-kept c (suc n) a h = rw h (repeat-kept c n a h)

pub broadcast_sizes-target : (k n s : ℕ) → n ≢ 1 → broadcast_sizes k n ≡ ok s → s ≡ n
broadcast_sizes-target k n s h e = ground arith

-- `n` values that satisfy a constraint.
pub record IsVec (n : ℕ) (c : ValueConstraint) (v : Values) : Type 0 where
  pub entries : List ℤ
  pub shape : v ≡ one_d entries
  pub size : length entries ≡ n
  pub held : any_violates c entries ≡ false

broadcast_to-IsVec :
    (n : ℕ) (c : ValueConstraint) (vals v : Values)
    → refuses c vals ≡ false
    → broadcast_to n vals ≡ ok v
    → IsVec n c v
broadcast_to-IsVec n c (zero_d a) v r e = record {
  entries = repeat n a;
  shape = sym (ok-injective _ v e);
  size = length-repeat n a;
  held = repeat-kept c n a r;
}
broadcast_to-IsVec n c (one_d []) v r e = record {
  entries = [];
  shape = ground arith;
  size = ground arith;
  held = refl;
}
broadcast_to-IsVec n c (one_d (a ∷ [])) v r e = record {
  entries = repeat n a;
  shape = sym (ok-injective _ v e);
  size = length-repeat n a;
  held = repeat-kept c n a (ground arith);
}
broadcast_to-IsVec n c (one_d (a ∷ b ∷ rest)) v r e = record {
  entries = a ∷ b ∷ rest;
  shape = ground arith;
  size = ground arith;
  held = r;
}

module _ (F : Numbers) (n : ℕ) (many : n ≢ 1) where
  second : {r : Values × ℕ} {values : Values} {s : ℕ} → ok (values, s) ≡ ok r → s ≡ n → r.1 ≡ n
  second {r} {values} {s} e h =
      ap (λ (q : Values × ℕ). q.1) (sym (ok-injective (values, s) r e)) ∙ h

  pub rank1_values-size : (x : Argument F) (r : Values × ℕ) → rank1_values F n x ≡ ok r → r.1 ≡ n
  rank1_values-size (sequence items) r e =
      let (s, es, e1) = >>=-eq-ok (broadcast_sizes (length items) n) _ e in
      let (vs, _, e2) = >>=-eq-ok (tensor_of F items) _ e1 in
      second e2 (broadcast_sizes-target (length items) n s many es)
  rank1_values-size (tensor d values) r e =
      let (_, _, e1) = >>=-eq-ok (raise_if (not (is_int_dtype d)) value_error) _ e in
      let (s, es, e2) = >>=-eq-ok (broadcast_sizes (length values) n) _ e1 in
      second e2 (broadcast_sizes-target (length values) n s many es)
  rank1_values-size (array d values) r e =
      let (_, _, e1) = >>=-eq-ok (raise_if (not (is_int_dtype d)) value_error) _ e in
      let (s, es, e2) = >>=-eq-ok (broadcast_sizes (length values) n) _ e1 in
      second e2 (broadcast_sizes-target (length values) n s many es)
  rank1_values-size (scalar item) r e =
      let (v, _, e1) =
        >>=-eq-ok (to_generic_scalar F is_int_dtype unconstrained (scalar item)) _ e in
      second e1 refl
  rank1_values-size (tensor_scalar d a) r e =
      let (v, _, e1) =
        >>=-eq-ok (to_generic_scalar F is_int_dtype unconstrained (tensor_scalar d a)) _ e in
      second e1 refl
  rank1_values-size (array_scalar d a) r e =
      let (v, _, e1) =
        >>=-eq-ok (to_generic_scalar F is_int_dtype unconstrained (array_scalar d a)) _ e in
      second e1 refl
  rank1_values-size (sequences row rows) r e =
      let (v, _, e1) =
        >>=-eq-ok (to_generic_scalar F is_int_dtype unconstrained (sequences row rows)) _ e in
      second e1 refl
  rank1_values-size (matrix_tensor d k rows) r e =
      let (v, _, e1) =
        >>=-eq-ok (to_generic_scalar F is_int_dtype unconstrained (matrix_tensor d k rows)) _ e in
      second e1 refl
  rank1_values-size (matrix_array d k rows) r e =
      let (v, _, e1) =
        >>=-eq-ok (to_generic_scalar F is_int_dtype unconstrained (matrix_array d k rows)) _ e in
      second e1 refl
  rank1_values-size higher_rank r e =
      let (v, _, e1) = >>=-eq-ok (to_generic_scalar F is_int_dtype unconstrained higher_rank) _ e in
      second e1 refl

  -- For any size but one, whatever the argument, what `to_VecNi` returns is a vector of that many
  -- entries, all of which satisfy the constraint.
  pub to_vecni-IsVec :
      (c : ValueConstraint) (x : Argument F) (v : Values)
      → to_vecni F (pos n) c x ≡ ok v
      → IsVec n c v
  unfolding to_vecni to_integer_rank1 to_generic_rank1
  to_vecni-IsVec c x v e =
      let (_, _, e0) = >>=-eq-ok (raise_if (leb_ℤ (pos n) (pos 0)) value_error) _ e in
      let (_, _, e1) = >>=-eq-ok (raise_if (not (is_numeric_max_rank1 F x)) type_error) _ e0 in
      let (r, er, e2) = >>=-eq-ok (rank1_values F n x) _ e1 in
      let (_, ec, e3) = >>=-eq-ok (raise_if (refuses c r.0) value_error) _ e2 in
      broadcast_to-IsVec n c r.0 v (ground arith)
        (subst (λ m. broadcast_to m r.0 ≡ ok v) (rank1_values-size x r er) e3)
