-- ===== src/Prelude/Sets.antt =====
-- A Python set of numbers, as a list with no number twice: what `add`, `in` and `len` see of it.
use fvdb_core.Prelude.Tests.{◌==◌, if◌then◌else◌}
use fvdb_core.Prelude.Lists.{length}
use Prim.Native.Nat.{ℕ, suc}
use mathlib.Core.Path.{◌≡◌}
use mathlib.Core.Bool.{Bool, true, false, ◌||◌}
use mathlib.Core.List.{List, [], ◌∷◌}
use native.Mathlib.Omega.{arith}

abbrev pub contains : List ℕ → ℕ → Bool
contains [] a = false
contains (x ∷ xs) a = a == x || contains xs a

unfoldable pub add : ℕ → List ℕ → List ℕ
add a xs = if contains xs a then xs else a ∷ xs

pub contains-add : (b a : ℕ) (xs : List ℕ) → contains (add b xs) a ≡ (a == b || contains xs a)
unfolding add
contains-add b a xs = ground arith

pub length-add_old : (a : ℕ) (xs : List ℕ) → contains xs a ≡ true → length (add a xs) ≡ length xs
unfolding add
length-add_old a xs h = rw h

pub length-add_new :
    (a : ℕ) (xs : List ℕ) → contains xs a ≡ false → length (add a xs) ≡ suc (length xs)
unfolding add
length-add_new a xs h = rw h
