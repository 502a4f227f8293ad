-- ===== src/Jagged/Dispatch/Arguments.antt =====
-- What a function of torch is given by the dispatch.
use fvdb_core.Prelude.{◌≡◌, refl, ap, subst, Bool, true, false, Option, none, some}
use fvdb_core.Prelude.Results.{Result, ok, raise, >>=-eq-ok, ok-injective, ◌>>=◌}
use fvdb_core.DataRepo.Text.{Text}
use fvdb_core.Jagged.{
  Torch, Object, jagged, tensor, list, tuple, named_tuple, other, Objects, nil, cons, Keywords, end,
  keyword,
}
use fvdb_core.Jagged.Dispatch.{
  or_else, find_proto_in, find_proto_among, unwrap, unwrap_in, unwrap_among, find_out, out_jagged,
  Function, prepare, finish, call, dispatch, torch_function,
}

module _ (T : Torch) where
  open T use {JaggedTensor, Memory}

  -- No jagged tensor stands in the object.
  abbrev mutual
    pub IsRaw : Object T → Type 0
    IsRaw (jagged j) = ⊥
    IsRaw (tensor t) = Unit
    IsRaw (list os) = IsRawIn os
    IsRaw (tuple os) = IsRawIn os
    IsRaw (named_tuple os) = IsRawIn os
    IsRaw (other o) = Unit

    pub IsRawIn : Objects T → Type 0
    IsRawIn nil = Unit
    IsRawIn (cons o os) = IsRaw o × IsRawIn os

  abbrev pub IsRawAmong : Keywords T → Type 0
  IsRawAmong end = Unit
  IsRawAmong (keyword name o ks) = IsRaw o × IsRawAmong ks

  mutual
    unfolding unwrap

    unwrap-IsRaw : (o v : Object T) → unwrap T o ≡ ok v → IsRaw v
    unwrap-IsRaw (jagged j) v h = subst IsRaw (ok-injective _ v h) tt
    unwrap-IsRaw (tensor t) v h = subst IsRaw (ok-injective _ v h) tt
    unwrap-IsRaw (list os) v h =
        let (vs, e, h1) = >>=-eq-ok (unwrap_in T os) _ h in
        subst IsRaw (ok-injective _ v h1) (unwrap_in-IsRaw os vs e)
    unwrap-IsRaw (tuple os) v h =
        let (vs, e, h1) = >>=-eq-ok (unwrap_in T os) _ h in
        subst IsRaw (ok-injective _ v h1) (unwrap_in-IsRaw os vs e)
    unwrap-IsRaw (named_tuple nil) v h = absurd (cc h)
    unwrap-IsRaw (named_tuple (cons o nil)) v h = subst IsRaw (ok-injective _ v h) (tt, tt)
    unwrap-IsRaw (named_tuple (cons o (cons q os))) v h = absurd (cc h)
    unwrap-IsRaw (other o) v h = subst IsRaw (ok-injective _ v h) tt

    unwrap_in-IsRaw : (os vs : Objects T) → unwrap_in T os ≡ ok vs → IsRawIn vs
    unwrap_in-IsRaw nil vs h = subst IsRawIn (ok-injective _ vs h) tt
    unwrap_in-IsRaw (cons o os) vs h =
        let (v, e, h1) = >>=-eq-ok (unwrap T o) _ h in
        let (rest, er, h2) = >>=-eq-ok (unwrap_in T os) _ h1 in
        subst IsRawIn (ok-injective _ vs h2) (unwrap-IsRaw o v e, unwrap_in-IsRaw os rest er)

  unwrap_among-IsRaw : (ks vs : Keywords T) → unwrap_among T ks ≡ ok vs → IsRawAmong vs
  unfolding unwrap_among
  unwrap_among-IsRaw end vs h = subst IsRawAmong (ok-injective _ vs h) tt
  unwrap_among-IsRaw (keyword name o ks) vs h =
      let (v, e, h1) = >>=-eq-ok (unwrap T o) _ h in
      let (rest, er, h2) = >>=-eq-ok (unwrap_among T ks) _ h1 in
      subst IsRawAmong (ok-injective _ vs h2) (unwrap-IsRaw o v e, unwrap_among-IsRaw ks rest er)

  pub prepare-IsRaw :
      (args : Objects T) (kwargs : Keywords T) (q : Objects T × Keywords T × Option JaggedTensor)
      → prepare T args kwargs ≡ ok q
      → IsRawIn q.0 × IsRawAmong q.1
  unfolding prepare
  prepare-IsRaw args kwargs q h =
      let (a, ea, h1) = >>=-eq-ok (unwrap_in T args) _ h in
      let (k, ek, h2) = >>=-eq-ok (unwrap_among T kwargs) _ h1 in
      let (out, eo, h3) = >>=-eq-ok (out_jagged T (find_out T kwargs)) _ h2 in
      subst (λ (x : Objects T × Keywords T × Option JaggedTensor). IsRawIn x.0 × IsRawAmong x.1)
        (ok-injective _ q h3) (unwrap_in-IsRaw args a ea, unwrap_among-IsRaw kwargs k ek)

  -- Two functions that do the same to raw arguments.
  abbrev pub AgreeOnRaw : Function T → Function T → Type 0
  AgreeOnRaw f g =
      (args : Objects T) (kwargs : Keywords T) (m : Memory)
      → IsRawIn args
      → IsRawAmong kwargs
      → f args kwargs m ≡ g args kwargs m

  call-raw :
      (f g : Function T) (name : Text) (p : JaggedTensor)
      (r : Result (Objects T × Keywords T × Option JaggedTensor)) (m : Memory)
      → AgreeOnRaw f g
      → ((q : Objects T × Keywords T × Option JaggedTensor)
          → r ≡ ok q
          → IsRawIn q.0 × IsRawAmong q.1)
      → call T f name p r m ≡ call T g name p r m
  call-raw f g name p (raise e) m h raw = refl
  call-raw f g name p (ok (args, kwargs, out)) m h raw =
      let (ra, rk) = raw (args, kwargs, out) refl in
      ap (λ (c : Result (Object T) × Memory). (c.0 >>= finish T name out p c.1, c.1))
        (h args kwargs m ra rk)

  dispatch-raw :
      (f g : Function T) (name : Text) (o : Option JaggedTensor) (args : Objects T)
      (kwargs : Keywords T) (m : Memory)
      → AgreeOnRaw f g
      → dispatch T f name o args kwargs m ≡ dispatch T g name o args kwargs m
  dispatch-raw f g name none args kwargs m h = refl
  dispatch-raw f g name (some p) args kwargs m h =
      call-raw f g name p (prepare T args kwargs) m h (prepare-IsRaw args kwargs)

  -- What a call comes to depends only on what the function of torch does to arguments in which no jagged
  -- tensor stands, at any depth.
  pub torch_function-raw :
      (f g : Function T) (jagged_types : Bool) (name : Option Text) (args : Objects T)
      (kwargs : Keywords T) (m : Memory)
      → AgreeOnRaw f g
      → torch_function T jagged_types name f args kwargs m
        ≡ torch_function T jagged_types name g args kwargs m
  unfolding torch_function
  torch_function-raw f g false name args kwargs m h = refl
  torch_function-raw f g true none args kwargs m h = refl
  torch_function-raw f g true (some name) args kwargs m h =
      rw
        (dispatch-raw f g name (or_else (find_proto_in T args) (find_proto_among T kwargs)) args
          kwargs m h)
        refl
