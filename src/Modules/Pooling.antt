-- ===== src/Modules/Pooling.antt =====
-- The sizes of the pooling and upsampling modules of fvdb/nn/modules.py: `AvgPool`, `MaxPool` and
-- `UpsamplingNearest`.
use fvdb_core.Prelude.{
  ℕ, suc, ◌≡◌, sym, ap, subst, ◌∙◌, Bool, true, false, not, Option, none, some, List, [], ◌∷◌,
  length, if◌then◌else◌, ◌⊎◌, arith,
}
use fvdb_core.Prelude.Int.{ℤ}
use fvdb_core.Prelude.Results.{
  Result, ok, type_error, value_error, raise_if, ◌>>=◌, >>=-eq-ok, raise_if-eq-ok, ok-injective,
}
use fvdb_core.Types.{
  unconstrained, positive, Numbers, Item, int, float, other_item, Argument, scalar, tensor_scalar,
  array_scalar, sequence, tensor, array, sequences, matrix_tensor, matrix_array, higher_rank,
  is_int_dtype, is_numeric_max_rank1,
}
use fvdb_core.Types.Scalar.{to_generic_scalar}
use fvdb_core.Types.Rank1.{
  Values, zero_d, one_d, broadcast_sizes, refuses, tensor_of, rank1_values, to_generic_rank1,
  to_integer_rank1, to_vec3i_broadcastable,
}

pub record Window : Type 0 where
  pub kernel_size : Values
  pub stride : Values

-- A positive number, or one or three of them.
abbrev pub IsSize : Values → Type 0
IsSize (zero_d n) = refuses positive (zero_d n) ≡ false
IsSize (one_d ns) = (refuses positive (one_d ns) ≡ false) × ((length ns ≡ 3) ⊎ (length ns ≡ 1))

abbrev HasSize : Values → Type 0
HasSize (zero_d n) = Unit
HasSize (one_d ns) = (length ns ≡ 3) ⊎ (length ns ≡ 1)

sizes : (k s : ℕ) → broadcast_sizes k 3 ≡ ok s → (k ≡ 3) ⊎ (k ≡ 1)
sizes k s e = ground arith

HasSize-IsSize : (v : Values) → HasSize v → refuses positive v ≡ false → IsSize v
HasSize-IsSize (zero_d n) h r = r
HasSize-IsSize (one_d ns) h r = (r, h)

-- `truth` is Python's `bool` of an argument, which may raise.
module _ (F : Numbers) (truth : Argument F → Result Bool) where
  open F use {of_int, of_float}

  -- `to_Vec3iBroadcastable(stride, …) if stride else self.kernel_size`
  abbrev pub window_stride : Option (Argument F) → Values → Result Values
  window_stride none kernel_size = ok kernel_size
  window_stride (some x) kernel_size = do
    given ← truth x
    if given then to_vec3i_broadcastable F positive x else ok kernel_size

  -- `AvgPool.__init__`, `MaxPool.__init__`
  unfoldable pub make_window : Argument F → Option (Argument F) → Result Window
  make_window kernel_argument stride_argument = do
    kernel_size ← to_vec3i_broadcastable F positive kernel_argument
    stride ← window_stride stride_argument kernel_size
    ok (record { kernel_size = kernel_size; stride = stride })

  -- `UpsamplingNearest.__init__`
  abbrev pub make_scale_factor : Argument F → Result Values
  make_scale_factor = to_vec3i_broadcastable F positive

  length-tensor_of :
      (items : List (Item F)) (ns : List ℤ) → tensor_of F items ≡ ok ns → length ns ≡ length items
  length-tensor_of [] ns e = ap length (sym (ok-injective [] ns e))
  length-tensor_of (int n ∷ items) ns e =
      let (v, _, e1) = >>=-eq-ok (of_int n) _ e in
      let (vs, ev, e2) = >>=-eq-ok (tensor_of F items) _ e1 in
      ap length (sym (ok-injective (v ∷ vs) ns e2)) ∙ ap suc (length-tensor_of items vs ev)
  length-tensor_of (float x ∷ items) ns e =
      let (v, _, e1) = >>=-eq-ok (of_float x) _ e in
      let (vs, ev, e2) = >>=-eq-ok (tensor_of F items) _ e1 in
      ap length (sym (ok-injective (v ∷ vs) ns e2)) ∙ ap suc (length-tensor_of items vs ev)
  length-tensor_of (other_item ∷ items) ns e = absurd (cc e)

  held : {v : Values} {s : ℕ} {r : Values × ℕ} → ok (v, s) ≡ ok r → HasSize v → HasSize r.0
  held {v} {s} {r} e h = subst (λ (q : Values × ℕ). HasSize q.0) (ok-injective (v, s) r e) h

  scalar-HasSize :
      (x : Argument F) (r : Values × ℕ)
      → (to_generic_scalar F is_int_dtype unconstrained x >>= λ n. ok (zero_d n, 3)) ≡ ok r
      → HasSize r.0
  scalar-HasSize x r e =
      let (n, _, e1) = >>=-eq-ok (to_generic_scalar F is_int_dtype unconstrained x) _ e in
      held e1 tt

  rank1_values-HasSize : (x : Argument F) (r : Values × ℕ) → rank1_values F 3 x ≡ ok r → HasSize r.0
  rank1_values-HasSize (sequence items) r e =
      let (s, es, e1) = >>=-eq-ok (broadcast_sizes (length items) 3) _ e in
      let (ns, en, e2) = >>=-eq-ok (tensor_of F items) _ e1 in
      held e2 (
        subst (λ k. (k ≡ 3) ⊎ (k ≡ 1)) (sym (length-tensor_of items ns en))
          (sizes (length items) s es))
  rank1_values-HasSize (tensor d ns) r e =
      let (_, _, e1) = >>=-eq-ok (raise_if (not (is_int_dtype d)) value_error) _ e in
      let (s, es, e2) = >>=-eq-ok (broadcast_sizes (length ns) 3) _ e1 in
      held e2 (sizes (length ns) s es)
  rank1_values-HasSize (array d ns) r e =
      let (_, _, e1) = >>=-eq-ok (raise_if (not (is_int_dtype d)) value_error) _ e in
      let (s, es, e2) = >>=-eq-ok (broadcast_sizes (length ns) 3) _ e1 in
      held e2 (sizes (length ns) s es)
  rank1_values-HasSize (scalar i) r e = scalar-HasSize (scalar i) r e
  rank1_values-HasSize (tensor_scalar d n) r e = scalar-HasSize (tensor_scalar d n) r e
  rank1_values-HasSize (array_scalar d n) r e = scalar-HasSize (array_scalar d n) r e
  rank1_values-HasSize (sequences row rows) r e = scalar-HasSize (sequences row rows) r e
  rank1_values-HasSize (matrix_tensor d n rows) r e = scalar-HasSize (matrix_tensor d n rows) r e
  rank1_values-HasSize (matrix_array d n rows) r e = scalar-HasSize (matrix_array d n rows) r e
  rank1_values-HasSize higher_rank r e = scalar-HasSize higher_rank r e

  to_vec3i_broadcastable-IsSize :
      (x : Argument F) (v : Values) → to_vec3i_broadcastable F positive x ≡ ok v → IsSize v
  unfolding to_vec3i_broadcastable to_integer_rank1 to_generic_rank1
  to_vec3i_broadcastable-IsSize x v e =
      let (_, _, e1) = >>=-eq-ok (raise_if (not (is_numeric_max_rank1 F x)) type_error) _ e in
      let (r, er, e2) = >>=-eq-ok (rank1_values F 3 x) _ e1 in
      let (_, ec, e3) = >>=-eq-ok (raise_if (refuses positive r.0) value_error) _ e2 in
      subst IsSize (ok-injective r.0 v e3) (
        HasSize-IsSize r.0 (rank1_values-HasSize x r er)
          (raise_if-eq-ok (refuses positive r.0) value_error ec))

  chosen-IsSize :
      (given : Bool) (x : Argument F) (k s : Values)
      → IsSize k
      → (if given then to_vec3i_broadcastable F positive x else ok k) ≡ ok s
      → IsSize s
  chosen-IsSize true x k s h e = to_vec3i_broadcastable-IsSize x s e
  chosen-IsSize false x k s h e = subst IsSize (ok-injective k s e) h

  window_stride-IsSize :
      (o : Option (Argument F)) (k s : Values) → IsSize k → window_stride o k ≡ ok s → IsSize s
  window_stride-IsSize none k s h e = subst IsSize (ok-injective k s e) h
  window_stride-IsSize (some x) k s h e =
      let (given, _, e1) = >>=-eq-ok (truth x) _ e in chosen-IsSize given x k s h e1

  -- Whatever the arguments, a pooling module that is made has a window and a stride of positive numbers, each
  -- of them one number of no dimension, or one or three of one dimension.
  pub make_window-IsSize :
      (x : Argument F) (o : Option (Argument F)) (w : Window)
      → make_window x o ≡ ok w
      → IsSize w.kernel_size × IsSize w.stride
  unfolding make_window
  make_window-IsSize x o w e =
      let (k, ek, e1) = >>=-eq-ok (to_vec3i_broadcastable F positive x) _ e in
      let (s, es, e2) = >>=-eq-ok (window_stride o k) _ e1 in
      let h : IsSize k = to_vec3i_broadcastable-IsSize x k ek in
      subst (λ (q : Window). IsSize q.kernel_size × IsSize q.stride) (ok-injective _ w e2)
        (h, window_stride-IsSize o k s h es)
