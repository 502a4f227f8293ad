-- ===== src/Examples/Jagged.antt =====
-- Tests of the dispatch of jagged tensors, and instances of its theorems. A tensor stands for its shape.
use fvdb_core.Prelude.{ℕ, ◌≡◌, refl, sym, ap, true, some, List, [], ◌∷◌}
use fvdb_core.Prelude.Results.{ok, raise, runtime_error, ok-injective}
use fvdb_core.DataRepo.Text.{codes}
use fvdb_core.Jagged.{
  Torch, jagged, tensor, list, tuple, named_tuple, other, Objects, nil, cons, end, keyword,
  is_forwarded,
}
use fvdb_core.Jagged.Dispatch.{
  or_else, not_implemented, reply, find_proto_in, find_proto_among, unwrap_in, unwrap_among, wrap,
  answer, Function, prepare, finish, torch_function,
}
use fvdb_core.Jagged.Dispatch.Arguments.{AgreeOnRaw, torch_function-raw}
use fvdb_core.Jagged.Dispatch.Structure.{Returns, torch_function-IsWrapped}

abbrev shapes : Torch
shapes = record {
  Tensor = List ℕ;
  JaggedTensor = List ℕ × List ℕ;
  Structure = List ℕ;
  Memory = Unit {0};
  Other = Unit {0};
  generator = tt;
  shape = λ m t. t;
  jdata = λ j. j.1;
  structure = λ j. j.0;
  jagged_like = λ m p t. ok (p.0, t);
  jagged_like-jdata = λ m p j t e. sym (ap (λ x. x.1) (ok-injective (p.0, t) j e));
  jagged_like-structure = λ m p j t e. sym (ap (λ x. x.0) (ok-injective (p.0, t) j e));
}

-- Two tensors of two and three rows.
abbrev rows : List ℕ × List ℕ
rows = (2 ∷ 3 ∷ [], 5 ∷ 4 ∷ [])

-- One tensor of one row.
abbrev single : List ℕ × List ℕ
single = (1 ∷ [], 1 ∷ 4 ∷ [])

abbrev one_argument : Objects shapes
one_argument = cons (jagged rows) nil

-- Gives its first argument back, and where that is a jagged tensor nothing.
abbrev pointwise : Function shapes
pointwise (cons (tensor t) os) ks m = (ok (tensor t), m)
pointwise args ks m = (ok (other tt), m)

abbrev pointwise_of_raw : Function shapes
pointwise_of_raw (cons (jagged j) os) ks m = (raise runtime_error, m)
pointwise_of_raw (cons (tensor t) os) ks m = (ok (tensor t), m)
pointwise_of_raw args ks m = (ok (other tt), m)

-- The values and the indices of a reduction over the columns, and a reduction over all.
abbrev over_columns : Function shapes
over_columns args ks m = (ok (tuple (cons (tensor (5 ∷ [])) (cons (tensor (5 ∷ [])) nil))), m)

abbrev over_all : Function shapes
over_all args ks m = (ok (tensor []), m)

relu_forwarded :
    torch_function shapes true (some (codes "relu")) pointwise one_argument end tt
    ≡ (ok (reply (jagged rows)), tt)
unfolding torch_function is_forwarded find_proto_in prepare unwrap_in unwrap_among finish answer
    wrap
relu_forwarded = refl

columns_wrapped :
    torch_function shapes true (some (codes "amax")) over_columns one_argument end tt ≡ (
      ok (
          reply
            (tuple (cons (jagged (2 ∷ 3 ∷ [], 5 ∷ [])) (cons (jagged (2 ∷ 3 ∷ [], 5 ∷ [])) nil)))),
      tt,
    )
unfolding torch_function is_forwarded find_proto_in prepare unwrap_in unwrap_among finish answer
    wrap
columns_wrapped = refl

all_refused :
    torch_function shapes true (some (codes "sum")) over_all one_argument end tt
    ≡ (raise runtime_error, tt)
unfolding torch_function is_forwarded find_proto_in prepare unwrap_in unwrap_among finish answer
    wrap
all_refused = refl

-- With `out` the rows of the result are not looked at.
all_into_out :
    torch_function shapes true
      (some (codes "sum"))
      over_all
      one_argument
      (keyword (codes "out") (jagged single) end)
      tt
    ≡ (ok (reply (jagged single)), tt)
unfolding torch_function is_forwarded find_proto_in prepare unwrap_in unwrap_among finish answer
    wrap
all_into_out = refl

reshape_left :
    torch_function shapes true (some (codes "reshape")) pointwise one_argument end tt
    ≡ (ok not_implemented, tt)
unfolding torch_function is_forwarded find_proto_in prepare unwrap_in unwrap_among finish answer
    wrap
reshape_left = refl

same_on_raw : AgreeOnRaw shapes pointwise pointwise_of_raw
same_on_raw nil ks m ra rk = refl
same_on_raw (cons (jagged j) os) ks m ra rk = absurd ra.0
same_on_raw (cons (tensor t) os) ks m ra rk = refl
same_on_raw (cons (list xs) os) ks m ra rk = refl
same_on_raw (cons (tuple xs) os) ks m ra rk = refl
same_on_raw (cons (named_tuple xs) os) ks m ra rk = refl
same_on_raw (cons (other o) os) ks m ra rk = refl

torch_function-raw_example :
    torch_function shapes true (some (codes "relu")) pointwise one_argument end tt
    ≡ torch_function shapes true (some (codes "relu")) pointwise_of_raw one_argument end tt
torch_function-raw_example =
    torch_function-raw shapes pointwise pointwise_of_raw true (some (codes "relu")) one_argument end
      tt same_on_raw

torch_function-IsWrapped_example :
    (is_forwarded (codes "relu") ≡ true)
    × (p : List ℕ × List ℕ) × (or_else
          (find_proto_in shapes one_argument)
          (find_proto_among shapes end)
        ≡ some p)
    × Returns shapes pointwise p (prepare shapes one_argument end) tt tt (jagged rows)
torch_function-IsWrapped_example =
    torch_function-IsWrapped shapes pointwise true (codes "relu") one_argument end tt tt
      (jagged rows) refl refl relu_forwarded
