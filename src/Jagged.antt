-- ===== src/Jagged.antt =====
-- fvdb/jagged_tensor.py: what `JaggedTensor.__torch_function__` is given and gives, and the functions of
-- torch that it forwards.
pub mod Dispatch
use fvdb_core.Prelude.{ℕ, ◌≡◌, Bool, true, false, ◌||◌, List, [], ◌∷◌}
use fvdb_core.Prelude.Results.{Result, ok}
use fvdb_core.DataRepo.Text.{Text, codes, same}

-- What the dispatch uses of torch and of the native jagged tensors. A tensor is an object whose shape
-- may change with the state, `Memory`, that functions of torch read and write.
pub record Torch : Type 1 where
  pub Tensor : Type 0
  pub JaggedTensor : Type 0
  pub Structure : Type 0
  pub Memory : Type 0
  pub Other : Type 0
  pub generator : Other
  pub shape : Memory → Tensor → List ℕ
  pub jdata : JaggedTensor → Tensor
  pub structure : JaggedTensor → Structure
  pub jagged_like : Memory → JaggedTensor → Tensor → Result JaggedTensor
  pub jagged_like-jdata :
      (m : Memory) (p j : JaggedTensor) (t : Tensor) → jagged_like m p t ≡ ok j → jdata j ≡ t
  pub jagged_like-structure :
      (m : Memory) (p j : JaggedTensor) (t : Tensor)
      → jagged_like m p t ≡ ok j
      → structure j ≡ structure p

module _ (T : Torch) where
  open T use {Tensor, JaggedTensor, Other}

  -- A Python object, by the classes that the dispatch tells apart. A result type of torch counts as a
  -- plain tuple: it is made of an iterable, and has no `_fields`.
  mutual
    pub data Object : Type 0 where
      jagged : JaggedTensor → Object
      tensor : Tensor → Object
      list tuple named_tuple : Objects → Object
      other : Other → Object

    pub data Objects : Type 0 where
      nil : Objects
      cons : Object → Objects → Objects

  -- Keyword arguments, in their order.
  pub data Keywords : Type 0 where
    end : Keywords
    keyword : Text → Object → Keywords → Keywords

-- `_JT_TORCH_WHITELIST`
abbrev pub torch_whitelist : List Text
torch_whitelist =
    codes "abs"
    ∷ codes "abs_"
    ∷ codes "neg"
    ∷ codes "relu"
    ∷ codes "relu_"
    ∷ codes "sigmoid"
    ∷ codes "tanh"
    ∷ codes "silu"
    ∷ codes "gelu"
    ∷ codes "exp"
    ∷ codes "expm1"
    ∷ codes "log"
    ∷ codes "log1p"
    ∷ codes "sqrt"
    ∷ codes "rsqrt"
    ∷ codes "ceil"
    ∷ codes "floor"
    ∷ codes "round"
    ∷ codes "trunc"
    ∷ codes "nan_to_num"
    ∷ codes "clamp"
    ∷ codes "add"
    ∷ codes "sub"
    ∷ codes "mul"
    ∷ codes "div"
    ∷ codes "true_divide"
    ∷ codes "floor_divide"
    ∷ codes "remainder"
    ∷ codes "fmod"
    ∷ codes "pow"
    ∷ codes "maximum"
    ∷ codes "minimum"
    ∷ codes "fmax"
    ∷ codes "fmin"
    ∷ codes "eq"
    ∷ codes "ne"
    ∷ codes "lt"
    ∷ codes "le"
    ∷ codes "gt"
    ∷ codes "ge"
    ∷ codes "where"
    ∷ codes "lerp"
    ∷ codes "sum"
    ∷ codes "mean"
    ∷ codes "prod"
    ∷ codes "amax"
    ∷ codes "amin"
    ∷ codes "argmax"
    ∷ codes "argmin"
    ∷ codes "all"
    ∷ codes "any"
    ∷ codes "norm"
    ∷ codes "var"
    ∷ codes "std"
    ∷ []

abbrev pub is_among : Text → List Text → Bool
is_among name [] = false
is_among name (n ∷ names) = same n name || is_among name names

-- `name in _JT_TORCH_WHITELIST`
unfoldable pub is_forwarded : Text → Bool
is_forwarded name = is_among name torch_whitelist
