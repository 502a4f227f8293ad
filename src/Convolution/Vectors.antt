-- ===== src/Convolution/Vectors.antt =====
-- Triples: `Coord` and `Kernel` of fvdb/utils/tests/convolution_semantics_oracle.py, and the
-- three-element vectors of fvdb/convolution_plan.py.
use fvdb_core.Prelude.{ℕ, Bool, ◌||◌, List, [], ◌∷◌}
use fvdb_core.Prelude.Int.{ℤ}

pub record Vec3 {ℓ} (A : Type ℓ) : Type ℓ where
  pub x : A
  pub y : A
  pub z : A

module _ {ℓ} {A : Type ℓ} where
  abbrev pub vec3 : A → A → A → Vec3 A
  vec3 a b c = record { x = a; y = b; z = c }

  -- `tuple(f(value) for value in v)`
  abbrev pub map3 {κ} : {B : Type κ} → (A → B) → Vec3 A → Vec3 B
  map3 f v = record { x = f v.x; y = f v.y; z = f v.z }

  -- `tuple(f(v[axis], w[axis]) for axis in range(3))`
  abbrev pub zip3 {κ μ} : {B : Type κ} {C : Type μ} → (A → B → C) → Vec3 A → Vec3 B → Vec3 C
  zip3 f v w = record { x = f v.x w.x; y = f v.y w.y; z = f v.z w.z }

  -- `any(test(value) for value in v)`
  abbrev pub any3 : (A → Bool) → Vec3 A → Bool
  any3 p v = p v.x || p v.y || p v.z

  abbrev pub All3 {κ} : (A → Type κ) → Vec3 A → Type κ
  All3 P v = P v.x × P v.y × P v.z

abbrev pub to_list : {A : Type 0} → Vec3 A → List A
to_list v = v.x ∷ v.y ∷ v.z ∷ []

abbrev pub Coord : Type 0
Coord = Vec3 ℤ

abbrev pub Kernel : Type 0
Kernel = Vec3 ℕ
