-- ===== src/Prelude/Results.antt =====
-- Python's exceptions as values: the classes that the modelled code raises, and the monad of a call
-- that returns or raises.
use mathlib.Core.Path.{◌≡◌, refl}
use mathlib.Core.Logic.{◌⊎◌, inl, inr}
use mathlib.Core.Bool.{Bool, true, false}

pub data Exception : Type 0 where
  type_error value_error runtime_error assertion_error os_error attribute_error index_error
        zero_division_error :
      Exception

pub data Result {ℓ} (A : Type ℓ) : Type ℓ where
  ok : A → Result A
  raise : Exception → Result A

infixl 5 ◌>>◌
module _ {ℓ κ} {A : Type ℓ} {B : Type κ} where
  infixl 5 ◌>>=◌
  abbrev pub ◌>>=◌ : Result A → (A → Result B) → Result B
  ok value >>= next = next value
  raise exception >>= next = raise exception

  -- What a call that returned a bind's value did: both parts returned.
  pub >>=-eq-ok :
      (call : Result A) (next : A → Result B) {returned : B}
      → (call >>= next) ≡ ok returned
      → (value : A) × (call ≡ ok value) × (next value ≡ ok returned)
  >>=-eq-ok (ok value) next same = (value, refl, same)
  >>=-eq-ok (raise exception) next same = cc

-- A statement, and what follows it.
abbrev pub ◌>>◌ {κ} : {B : Type κ} → Result (Unit {0}) → Result B → Result B
statement >> rest = statement >>= λ _. rest

-- `if test: raise exception`
abbrev pub raise_if : Bool → Exception → Result (Unit {0})
raise_if test exception = elim test [ true ↦ raise exception | false ↦ ok tt ]

pub raise_if-eq-ok : (b : Bool) (e : Exception) → raise_if b e ≡ ok tt → b ≡ false
raise_if-eq-ok true e h = cc
raise_if-eq-ok false e h = refl

pub ok-injective {ℓ} : {A : Type ℓ} (a b : A) → ok a ≡ ok b → a ≡ b
ok-injective a b e = cc

pub Result-cases {ℓ} :
    {A : Type ℓ} (r : Result A) → ((a : A) × (r ≡ ok a)) ⊎ ((e : Exception) × (r ≡ raise e))
Result-cases (ok a) = inl (a, refl)
Result-cases (raise e) = inr (e, refl)
