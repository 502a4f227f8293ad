-- ===== src/Jagged/Dispatch.antt =====
-- `JaggedTensor.__torch_function__` of fvdb/jagged_tensor.py.
pub mod Arguments
pub mod Structure
use fvdb_core.Prelude.{
  ℕ, ◌≡◌, Bool, true, false, Option, none, some, List, [], ◌∷◌, if◌then◌else◌, ◌==◌,
}
use fvdb_core.Prelude.Results.{Result, ok, raise, type_error, runtime_error, index_error, ◌>>=◌}
use fvdb_core.DataRepo.Text.{Text, codes, same, ends_with}
use fvdb_core.Jagged.{
  Torch, Object, jagged, tensor, list, tuple, named_tuple, other, Objects, nil, cons, Keywords, end,
  keyword, is_forwarded,
}

abbrev pub or_else : {A : Type 0} → Option A → Option A → Option A
or_else none o = o
or_else (some a) o = some a

module _ (T : Torch) where
  open T use {JaggedTensor, Tensor, Memory, shape, jdata, jagged_like, generator}

  -- What the call comes to: `NotImplemented`, or a value.
  pub data Reply : Type 0 where
    not_implemented : Reply
    reply : Object T → Reply

  -- `_find_proto`
  unfoldable mutual
    pub find_proto : Object T → Option JaggedTensor
    find_proto (jagged j) = some j
    find_proto (tensor t) = none
    find_proto (list os) = find_proto_in os
    find_proto (tuple os) = find_proto_in os
    find_proto (named_tuple os) = find_proto_in os
    find_proto (other o) = none

    pub find_proto_in : Objects T → Option JaggedTensor
    find_proto_in nil = none
    find_proto_in (cons o os) = or_else (find_proto o) (find_proto_in os)

  unfoldable pub find_proto_among : Keywords T → Option JaggedTensor
  find_proto_among end = none
  find_proto_among (keyword name o ks) = or_else (find_proto o) (find_proto_among ks)

  -- `_unwrap`. A named tuple is made of its fields, and here of one generator.
  unfoldable mutual
    pub unwrap : Object T → Result (Object T)
    unwrap (jagged j) = ok (tensor (jdata j))
    unwrap (tensor t) = ok (tensor t)
    unwrap (list os) = unwrap_in os >>= λ plain. ok (list plain)
    unwrap (tuple os) = unwrap_in os >>= λ plain. ok (tuple plain)
    unwrap (named_tuple nil) = raise type_error
    unwrap (named_tuple (cons o nil)) = ok (named_tuple (cons (other generator) nil))
    unwrap (named_tuple (cons o (cons q os))) = raise type_error
    unwrap (other o) = ok (other o)

    pub unwrap_in : Objects T → Result (Objects T)
    unwrap_in nil = ok nil
    unwrap_in (cons o os) = do plain ← unwrap o; rest ← unwrap_in os; ok (cons plain rest)

  unfoldable pub unwrap_among : Keywords T → Result (Keywords T)
  unwrap_among end = ok end
  unwrap_among (keyword name o ks) = do
    plain ← unwrap o
    rest ← unwrap_among ks
    ok (keyword name plain rest)

  -- `kwargs["out"]`
  abbrev pub find_out : Keywords T → Option (Object T)
  find_out end = none
  find_out (keyword name o ks) = if same name (codes "out") then some o else find_out ks

  -- The value of `out` where it is a jagged tensor.
  abbrev pub out_jagged : Option (Object T) → Result (Option JaggedTensor)
  out_jagged (some (jagged j)) = ok (some j)
  out_jagged (some (list os)) = raise type_error
  out_jagged (some (tuple os)) = raise type_error
  out_jagged (some (named_tuple os)) = raise type_error
  out_jagged _ = ok none

  -- `int(x.shape[0])`
  abbrev pub leading : List ℕ → Result ℕ
  leading [] = raise index_error
  leading (n ∷ ns) = ok n

  -- `o.ndim == 0 or int(o.shape[0]) != N0`, negated.
  abbrev pub has_leading : ℕ → List ℕ → Bool
  has_leading rows [] = false
  has_leading rows (n ∷ ns) = n == rows

  -- `_wrap`, after the call of the function of torch.
  unfoldable mutual
    pub wrap : Memory → JaggedTensor → ℕ → Object T → Result (Object T)
    wrap m p rows (tensor t) =
        if has_leading rows (shape m t)
        then (jagged_like m p t >>= λ j. ok (jagged j))
        else raise runtime_error
    wrap m p rows (list os) = wrap_in m p rows os >>= λ ws. ok (list ws)
    wrap m p rows (tuple os) = wrap_in m p rows os >>= λ ws. ok (tuple ws)
    wrap m p rows (named_tuple os) = wrap_in m p rows os >>= λ ws. ok (named_tuple ws)
    wrap m p rows (jagged j) = ok (jagged j)
    wrap m p rows (other o) = ok (other o)

    pub wrap_in : Memory → JaggedTensor → ℕ → Objects T → Result (Objects T)
    wrap_in m p rows nil = ok nil
    wrap_in m p rows (cons o os) = do w ← wrap m p rows o; ws ← wrap_in m p rows os; ok (cons w ws)

  -- What is returned of the function's result.
  unfoldable pub answer :
      Bool → Option JaggedTensor → JaggedTensor → Memory → ℕ → Object T → Result (Object T)
  answer in_place (some j) p m rows result = ok (jagged j)
  answer true none p m rows result = ok (jagged p)
  answer false none p m rows result = wrap m p rows result

  -- A function of torch, given raw arguments.
  abbrev pub Function : Type 0
  Function = Objects T → Keywords T → Memory → Result (Object T) × Memory

  -- The arguments of the call, and the jagged tensor that it writes to.
  unfoldable pub prepare :
      Objects T → Keywords T → Result (Objects T × Keywords T × Option JaggedTensor)
  prepare args kwargs = do
    conv_args ← unwrap_in args
    conv_kwargs ← unwrap_among kwargs
    out ← out_jagged (find_out kwargs)
    ok (conv_args, conv_kwargs, out)

  unfoldable pub finish :
      Text → Option JaggedTensor → JaggedTensor → Memory → Object T → Result Reply
  finish name out p m result = do
    rows ← leading (shape m (jdata p))
    value ← answer (ends_with name (codes "_")) out p m rows result
    ok (reply value)

  abbrev pub call :
      Function
      → Text
      → JaggedTensor
      → Result (Objects T × Keywords T × Option JaggedTensor)
      → Memory
      → Result Reply × Memory
  call func name p (raise e) m = (raise e, m)
  call func name p (ok (args, kwargs, out)) m =
      let (result, after) = func args kwargs m in (result >>= finish name out p after, after)

  abbrev pub dispatch :
      Function
      → Text
      → Option JaggedTensor
      → Objects T
      → Keywords T
      → Memory
      → Result Reply × Memory
  dispatch func name none args kwargs m = (ok not_implemented, m)
  dispatch func name (some p) args kwargs m = call func name p (prepare args kwargs) m

  -- `__torch_function__`: whether the types hold `JaggedTensor`, and the function's name, where it has one
  unfoldable pub torch_function :
      Bool → Option Text → Function → Objects T → Keywords T → Memory → Result Reply × Memory
  torch_function false name func args kwargs m = (ok not_implemented, m)
  torch_function true none func args kwargs m = (ok not_implemented, m)
  torch_function true (some name) func args kwargs m =
      if is_forwarded name
      then dispatch func name (or_else (find_proto_in args) (find_proto_among kwargs)) args kwargs m
      else (ok not_implemented, m)
