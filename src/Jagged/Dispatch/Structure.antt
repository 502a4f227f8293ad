-- ===== src/Jagged/Dispatch/Structure.antt =====
-- What the dispatch makes of a result.
use fvdb_core.Prelude.{
  ℕ, ◌≡◌, refl, sym, ap, subst, ◌∙◌, Bool, true, false, Option, none, some, if◌then◌else◌,
  Bool-cases, inl, inr,
}
use fvdb_core.Prelude.Results.{Result, ok, raise, runtime_error, >>=-eq-ok, ok-injective, ◌>>=◌}
use fvdb_core.DataRepo.Text.{Text, codes, ends_with}
use fvdb_core.Jagged.{
  Torch, Object, jagged, tensor, list, tuple, named_tuple, other, Objects, nil, cons, Keywords,
  is_forwarded,
}
use fvdb_core.Jagged.Dispatch.{
  or_else, reply, find_proto_in, find_proto_among, unwrap_in, unwrap_among, find_out, out_jagged,
  leading, has_leading, wrap, wrap_in, answer, Function, prepare, finish, call, dispatch,
  torch_function,
}

module _ (T : Torch) where
  open T use {
    Tensor, JaggedTensor, Memory, shape, jdata, structure, jagged_like-jdata, jagged_like-structure,
    jagged_like,
  }

  -- The second object is the first with jagged tensors in place of the tensors, each with the same data,
  -- the structure of the prototype and its number of rows.
  abbrev mutual
    pub IsWrapped : Memory → JaggedTensor → ℕ → Object T → Object T → Type 0
    IsWrapped m p rows (tensor t) (jagged j) =
        (has_leading T rows (shape m t) ≡ true) × (jdata j ≡ t) × (structure j ≡ structure p)
    IsWrapped m p rows (list os) (list ws) = IsWrappedIn m p rows os ws
    IsWrapped m p rows (tuple os) (tuple ws) = IsWrappedIn m p rows os ws
    IsWrapped m p rows (named_tuple os) (named_tuple ws) = IsWrappedIn m p rows os ws
    IsWrapped m p rows (jagged j) (jagged k) = j ≡ k
    IsWrapped m p rows (other o) (other q) = o ≡ q
    IsWrapped m p rows _ _ = ⊥

    pub IsWrappedIn : Memory → JaggedTensor → ℕ → Objects T → Objects T → Type 0
    IsWrappedIn m p rows nil nil = Unit
    IsWrappedIn m p rows (cons o os) (cons w ws) =
        IsWrapped m p rows o w × IsWrappedIn m p rows os ws
    IsWrappedIn m p rows _ _ = ⊥

  IsWrapped-tensor :
      (m : Memory) (p : JaggedTensor) (rows : ℕ) (t : Tensor) (w : Object T) (kept : Bool)
      → has_leading T rows (shape m t) ≡ kept
      → (if kept then (jagged_like m p t >>= λ j. ok (jagged j)) else raise runtime_error) ≡ ok w
      → IsWrapped m p rows (tensor t) w
  IsWrapped-tensor m p rows t w true e h =
      let (j, ej, h1) = >>=-eq-ok (jagged_like m p t) _ h in
      subst (IsWrapped m p rows (tensor t)) (ok-injective _ w h1)
        (e, jagged_like-jdata m p j t ej, jagged_like-structure m p j t ej)
  IsWrapped-tensor m p rows t w false e h = absurd (cc h)

  mutual
    unfolding wrap

    wrap-IsWrapped :
        (m : Memory) (p : JaggedTensor) (rows : ℕ) (o w : Object T)
        → wrap T m p rows o ≡ ok w
        → IsWrapped m p rows o w
    wrap-IsWrapped m p rows (tensor t) w h =
        IsWrapped-tensor m p rows t w (has_leading T rows (shape m t)) refl h
    wrap-IsWrapped m p rows (list os) w h =
        let (ws, e, h1) = >>=-eq-ok (wrap_in T m p rows os) _ h in
        subst (IsWrapped m p rows (list os)) (ok-injective _ w h1)
          (wrap_in-IsWrapped m p rows os ws e)
    wrap-IsWrapped m p rows (tuple os) w h =
        let (ws, e, h1) = >>=-eq-ok (wrap_in T m p rows os) _ h in
        subst (IsWrapped m p rows (tuple os)) (ok-injective _ w h1)
          (wrap_in-IsWrapped m p rows os ws e)
    wrap-IsWrapped m p rows (named_tuple os) w h =
        let (ws, e, h1) = >>=-eq-ok (wrap_in T m p rows os) _ h in
        subst (IsWrapped m p rows (named_tuple os)) (ok-injective _ w h1)
          (wrap_in-IsWrapped m p rows os ws e)
    wrap-IsWrapped m p rows (jagged j) w h =
        subst (IsWrapped m p rows (jagged j)) (ok-injective _ w h) refl
    wrap-IsWrapped m p rows (other o) w h =
        subst (IsWrapped m p rows (other o)) (ok-injective _ w h) refl

    wrap_in-IsWrapped :
        (m : Memory) (p : JaggedTensor) (rows : ℕ) (os ws : Objects T)
        → wrap_in T m p rows os ≡ ok ws
        → IsWrappedIn m p rows os ws
    wrap_in-IsWrapped m p rows nil ws h = subst (IsWrappedIn m p rows nil) (ok-injective _ ws h) tt
    wrap_in-IsWrapped m p rows (cons o os) ws h =
        let (w, e, h1) = >>=-eq-ok (wrap T m p rows o) _ h in
        let (rest, er, h2) = >>=-eq-ok (wrap_in T m p rows os) _ h1 in
        subst (IsWrappedIn m p rows (cons o os)) (ok-injective _ ws h2)
          (wrap-IsWrapped m p rows o w e, wrap_in-IsWrapped m p rows os rest er)

  -- The value returned is what the function makes of the prepared arguments, wrapped after the call by the
  -- prototype.
  abbrev pub Returns :
      Function T
      → JaggedTensor
      → Result (Objects T × Keywords T × Option JaggedTensor)
      → Memory
      → Memory
      → Object T
      → Type 0
  Returns func p prepared m after w =
      (conv : Objects T × Keywords T × Option JaggedTensor) × (result : Object T) × (rows : ℕ)
      × (prepared ≡ ok conv)
      × (func conv.0 conv.1 m ≡ (ok result, after))
      × (leading T (shape after (jdata p)) ≡ ok rows)
      × IsWrapped after p rows result w

  reply-injective : (a b : Object T) → reply a ≡ reply b → a ≡ b
  reply-injective a b e = cc

  answer-wrap :
      (in_place : Bool) (out : Option JaggedTensor) (p : JaggedTensor) (m : Memory) (rows : ℕ)
      (result w : Object T)
      → in_place ≡ false
      → out ≡ none
      → answer T in_place out p m rows result ≡ ok w
      → wrap T m p rows result ≡ ok w
  unfolding answer
  answer-wrap true out p m rows result w n o h = absurd (cc n)
  answer-wrap false (some j) p m rows result w n o h = absurd (cc o)
  answer-wrap false none p m rows result w n o h = h

  called :
      (func : Function T) (name : Text) (p : JaggedTensor)
      (q : Result (Objects T × Keywords T × Option JaggedTensor)) (m after : Memory) (w : Object T)
      → ends_with name (codes "_") ≡ false
      → ((c : Objects T × Keywords T × Option JaggedTensor) → q ≡ ok c → c.2 ≡ none)
      → call T func name p q m ≡ (ok (reply w), after)
      → Returns func p q m after w
  unfolding finish
  called func name p (raise e) m after w n o h = absurd (cc (ap (λ c. c.0) h))
  called func name p (ok (args, kwargs, out)) m after w n o h =
      let before : Result (Object T) × Memory = func args kwargs m in
      let (result, er, h1) = >>=-eq-ok before.0 (finish T name out p before.1) (ap (λ c. c.0) h) in
      let same_memory : before.1 ≡ after = ap (λ c. c.1) h in
      let (rows, el, h2) = >>=-eq-ok (leading T (shape before.1 (jdata p))) _ h1 in
      let (value, ev, h3) =
        >>=-eq-ok (answer T (ends_with name (codes "_")) out p before.1 rows result) _ h2 in
      let wrapped : IsWrapped before.1 p rows result value =
        wrap-IsWrapped before.1 p rows result value
          (answer-wrap _ out p before.1 rows result value n (o (args, kwargs, out) refl) ev) in
      (
        (args, kwargs, out),
        result,
        rows,
        refl,
        λ i. (er i, same_memory i),
        subst (λ x. leading T (shape x (jdata p)) ≡ ok rows) same_memory el,
        subst (λ x. IsWrapped x p rows result w) same_memory
            (subst (IsWrapped before.1 p rows result)
              (reply-injective value w (ok-injective _ _ h3)) wrapped),
      )

  prepare-out :
      (args : Objects T) (kwargs : Keywords T) (c : Objects T × Keywords T × Option JaggedTensor)
      → find_out T kwargs ≡ none
      → prepare T args kwargs ≡ ok c
      → c.2 ≡ none
  unfolding prepare
  prepare-out args kwargs c o h =
      let (a, ea, h1) = >>=-eq-ok (unwrap_in T args) _ h in
      let (k, ek, h2) = >>=-eq-ok (unwrap_among T kwargs) _ h1 in
      let (out, eo, h3) = >>=-eq-ok (out_jagged T (find_out T kwargs)) _ h2 in
      sym (ap (λ x. x.2) (ok-injective _ c h3))
      ∙ sym (ok-injective none out (sym (ap (out_jagged T) o) ∙ eo))

  dispatched :
      (func : Function T) (name : Text) (o : Option JaggedTensor) (args : Objects T)
      (kwargs : Keywords T) (m after : Memory) (w : Object T)
      → ends_with name (codes "_") ≡ false
      → find_out T kwargs ≡ none
      → dispatch T func name o args kwargs m ≡ (ok (reply w), after)
      → (p : JaggedTensor) × (o ≡ some p) × Returns func p (prepare T args kwargs) m after w
  dispatched func name none args kwargs m after w n e h = absurd (cc (ap (λ c. c.0) h))
  dispatched func name (some p) args kwargs m after w n e h = (
    p,
    refl,
    called func name p (prepare T args kwargs) m after w n (λ c. prepare-out args kwargs c e) h,
  )

  -- A call of a function that does not work in place, and without `out`, that returns a value has forwarded
  -- a function of the list, with the first jagged tensor among the arguments for a prototype; and the
  -- value is the function's result with every tensor in it, at any depth, replaced by a jagged tensor of
  -- the same data, the prototype's structure and its number of rows after the call.
  pub torch_function-IsWrapped :
      (func : Function T) (jagged_types : Bool) (name : Text) (args : Objects T)
      (kwargs : Keywords T) (m after : Memory) (w : Object T)
      → ends_with name (codes "_") ≡ false
      → find_out T kwargs ≡ none
      → torch_function T jagged_types (some name) func args kwargs m ≡ (ok (reply w), after)
      → (is_forwarded name ≡ true)
        × (p : JaggedTensor) × (or_else (find_proto_in T args) (find_proto_among T kwargs) ≡ some p)
        × Returns func p (prepare T args kwargs) m after w
  unfolding torch_function
  torch_function-IsWrapped func false name args kwargs m after w n e h =
      absurd (cc (ap (λ c. c.0) h))
  torch_function-IsWrapped func true name args kwargs m after w n e h =
      elim (Bool-cases (is_forwarded name)) [
        | inl listed ↦
            let (p, first, returned) =
              dispatched func name (or_else (find_proto_in T args) (find_proto_among T kwargs)) args
                kwargs m after w n e (rw (torch_function, listed) at h) in
            (listed, p, first, returned)
        | inr unlisted ↦ absurd (cc (ap (λ c. c.0) (rw (torch_function, unlisted) at h)))
      ]
