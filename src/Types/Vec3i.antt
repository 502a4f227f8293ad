-- ===== src/Types/Vec3i.antt =====
-- What `to_Vec3i` of fvdb/types.py returns, and the interface through which a plan uses it.
use fvdb_core.Prelude.{ℕ, ◌<◌, ◌≡◌, ◌≢◌, sym, ap, subst, ◌∙◌, false, not, [], ◌∷◌, arith}
use fvdb_core.Prelude.Int.{ℤ, pos, negsuc, pos_part}
use fvdb_core.Prelude.Results.{
  Result, ok, type_error, value_error, raise_if, ◌>>=◌, >>=-eq-ok, ok-injective,
}
use fvdb_core.Convolution.Vectors.{Kernel, Vec3, vec3, All3}
use fvdb_core.Convolution.Plan.Types.{PositiveVec3i}
use fvdb_core.Types.{
  tensor, int64, ValueConstraint, positive, Numbers, Argument, is_numeric_max_rank1,
}
use fvdb_core.Types.Lengths.{rank1_values-size}
use fvdb_core.Types.Scalar.{violates}
use fvdb_core.Types.Rank1.{
  Values, zero_d, one_d, broadcast_to, refuses, rank1_values, to_generic_rank1, to_integer_rank1,
  to_vec3i,
}

pub three_ne_one : ◌≢◌ {A = ℕ} 3 1
three_ne_one e = omega (arith, e)

-- Three values that satisfy a constraint.
pub record IsVec3 (c : ValueConstraint) (v : Values) : Type 0 where
  pub entries : Vec3 ℤ
  pub shape : v ≡ one_d (entries.x ∷ entries.y ∷ entries.z ∷ [])
  pub held : All3 (λ n. violates c n ≡ false) entries

broadcast_to-IsVec3 :
    (c : ValueConstraint) (vals v : Values)
    → refuses c vals ≡ false
    → broadcast_to 3 vals ≡ ok v
    → IsVec3 c v
broadcast_to-IsVec3 c (zero_d a) v r e = record {
  entries = vec3 a a a;
  shape = sym (ok-injective _ v e);
  held = (r, r, r);
}
broadcast_to-IsVec3 c (one_d []) v r e = absurd (ground arith)
broadcast_to-IsVec3 c (one_d (a ∷ [])) v r e =
    let h : violates c a ≡ false = ground arith in
    record { entries = vec3 a a a; shape = sym (ok-injective _ v e); held = (h, h, h) }
broadcast_to-IsVec3 c (one_d (a ∷ b ∷ [])) v r e = absurd (ground arith)
broadcast_to-IsVec3 c (one_d (a ∷ b ∷ d ∷ [])) v r e = record {
  entries = vec3 a b d;
  shape = sym (ok-injective _ v e);
  held = (ground arith, ground arith, ground arith);
}
broadcast_to-IsVec3 c (one_d (a ∷ b ∷ d ∷ f ∷ rest)) v r e = absurd (ground arith)

module _ (F : Numbers) where
  -- Whatever the argument, what `to_Vec3i` returns is a vector of exactly three entries, all of which
  -- satisfy the constraint.
  pub to_vec3i-IsVec3 :
      (c : ValueConstraint) (x : Argument F) (v : Values) → to_vec3i F c x ≡ ok v → IsVec3 c v
  unfolding to_vec3i to_integer_rank1 to_generic_rank1
  to_vec3i-IsVec3 c x v e =
      let (_, _, e1) = >>=-eq-ok (raise_if (not (is_numeric_max_rank1 F x)) type_error) _ e in
      let (r, er, e2) = >>=-eq-ok (rank1_values F 3 x) _ e1 in
      let (_, ec, e3) = >>=-eq-ok (raise_if (refuses c r.0) value_error) _ e2 in
      broadcast_to-IsVec3 c r.0 v (ground arith)
        (subst (λ n. broadcast_to n r.0 ≡ ok v) (rank1_values-size F 3 three_ne_one x r er) e3)

  -- The sizes that a plan reads from the returned vector.
  abbrev pub as_kernel : Values → Kernel
  as_kernel (one_d (a ∷ b ∷ c ∷ [])) = vec3 (pos_part a) (pos_part b) (pos_part c)
  as_kernel _ = vec3 0 0 0

  abbrev pub to_kernel : Argument F → Result Kernel
  to_kernel x = to_vec3i F positive x >>= λ v. ok (as_kernel v)

  positive_part : (n : ℤ) → violates positive n ≡ false → 0 < pos_part n
  positive_part (pos n) h = ground arith
  positive_part (negsuc n) h = absurd (ground arith)

  pub to_kernel-positive : (x : Argument F) (k : Kernel) → to_kernel x ≡ ok k → All3 (λ n. 0 < n) k
  to_kernel-positive x k e =
      let (v, ev, e1) = >>=-eq-ok (to_vec3i F positive x) _ e in
      let w = to_vec3i-IsVec3 positive x v ev in
      let same : as_kernel v ≡ k = ok-injective (as_kernel v) k e1 in
      subst (All3 (λ n. 0 < n)) (ap as_kernel (sym w.shape) ∙ same) (
        positive_part w.entries.x w.held.0,
        positive_part w.entries.y w.held.1,
        positive_part w.entries.z w.held.2,
      )

  -- `to_Vec3i` is what the factories of plans ask for.
  abbrev pub positive_vec3i : PositiveVec3i
  positive_vec3i = record {
    Argument = Argument F;
    to_Vec3i = to_kernel;
    positive = to_kernel-positive;
  }

  -- A size that was converted before converts to itself.
  pub to_kernel-kept :
      (k : Kernel)
      → All3 (λ n. 0 < n) k
      → to_kernel (tensor int64 (pos k.x ∷ pos k.y ∷ pos k.z ∷ [])) ≡ ok k
  unfolding to_vec3i to_integer_rank1 to_generic_rank1 is_numeric_max_rank1
  to_kernel-kept k h = ground arith
