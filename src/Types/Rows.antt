-- ===== src/Types/Rows.antt =====
-- The rows of a tensor that is broadcast to two dimensions in fvdb/types.py.
use fvdb_core.Prelude.{
  ℕ, zero, suc, ◌≡◌, refl, subst, Bool, true, false, ◌||◌, List, [], ◌∷◌, length, All, arith, ◌==◌,
  if◌then◌else◌,
}
use fvdb_core.Prelude.Int.{ℤ}
use fvdb_core.Prelude.Results.{ok, raise, runtime_error, >>=-eq-ok, ok-injective}
use fvdb_core.Types.{ValueConstraint}
use fvdb_core.Types.Scalar.{violates}
use fvdb_core.Types.Rank1.{zero_d, one_d, repeat, any_violates}
use fvdb_core.Types.Lengths.{length-repeat, repeat-kept}
use fvdb_core.Types.Rank2.{
  Matrix, low, two_d, stretch, stretch_each, repeat_row, stretch_rows, rows_of, broadcast_matrix,
  any_row_violates, refuses_matrix,
}

abbrev pub IsRow : ℕ → ValueConstraint → List ℤ → Type 0
IsRow n c row = (length row ≡ n) × All (λ v. violates c v ≡ false) row

-- Rows of `n` values that satisfy a constraint.
abbrev pub IsBatch : ℕ → ValueConstraint → Matrix → Type 0
IsBatch n c (low values) = ⊥
IsBatch n c (two_d columns rows) = (columns ≡ n) × All (IsRow n c) rows

any_violates-All :
    (c : ValueConstraint) (vs : List ℤ)
    → any_violates c vs ≡ false
    → All (λ v. violates c v ≡ false) vs
any_violates-All c [] h = tt
any_violates-All c (v ∷ vs) h = (ground arith, any_violates-All c vs (ground arith))

or_false : (a b : Bool) → (a || b) ≡ false → (a ≡ false) × (b ≡ false)
or_false a b h = ground arith

exactly-IsRow :
    (n : ℕ) (c : ValueConstraint) (vs ws : List ℤ) (fits : Bool)
    → (length vs == n) ≡ fits
    → any_violates c vs ≡ false
    → (if fits then ok vs else raise runtime_error) ≡ ok ws
    → IsRow n c ws
exactly-IsRow n c vs ws true e h q =
    subst (IsRow n c) (ok-injective vs ws q) (ground arith, any_violates-All c vs h)
exactly-IsRow n c vs ws false e h q = absurd (cc q)

stretch-IsRow :
    (n : ℕ) (c : ValueConstraint) (vs ws : List ℤ)
    → any_violates c vs ≡ false
    → stretch n vs ≡ ok ws
    → IsRow n c ws
stretch-IsRow n c [] ws h q = exactly-IsRow n c [] ws (0 == n) refl h q
stretch-IsRow n c (v ∷ []) ws h q = subst (IsRow n c) (ok-injective (repeat n v) ws q) (
  length-repeat n v,
  any_violates-All c (repeat n v) (repeat-kept c n v (or_false (violates c v) false h).0),
)
stretch-IsRow n c (v ∷ w ∷ vs) ws h q =
    exactly-IsRow n c (v ∷ w ∷ vs) ws (length (v ∷ w ∷ vs) == n) refl h q

stretch_each-IsRow :
    (n : ℕ) (c : ValueConstraint) (rows ws : List (List ℤ))
    → any_row_violates c rows ≡ false
    → stretch_each n rows ≡ ok ws
    → All (IsRow n c) ws
stretch_each-IsRow n c [] ws h q = subst (All (IsRow n c)) (ok-injective [] ws q) tt
stretch_each-IsRow n c (row ∷ rows) ws h q =
    let (first, ef, q1) = >>=-eq-ok (stretch n row) _ q in
    let (rest, er, q2) = >>=-eq-ok (stretch_each n rows) _ q1 in
    let (here, later) = or_false (any_violates c row) (any_row_violates c rows) h in
    subst (All (IsRow n c)) (ok-injective (first ∷ rest) ws q2)
      (stretch-IsRow n c row first here ef, stretch_each-IsRow n c rows rest later er)

repeat_row-IsRow :
    (n : ℕ) (c : ValueConstraint) (row : List ℤ) (k : ℕ)
    → IsRow n c row
    → All (IsRow n c) (repeat_row k row)
repeat_row-IsRow n c row zero h = tt
repeat_row-IsRow n c row (suc k) h = (h, repeat_row-IsRow n c row k h)

exactly-All :
    (P : List ℤ → Type 0) (rows ws : List (List ℤ)) (fits : Bool)
    → All P rows
    → (if fits then ok rows else raise runtime_error) ≡ ok ws
    → All P ws
exactly-All P rows ws true h q = subst (All P) (ok-injective rows ws q) h
exactly-All P rows ws false h q = absurd (cc q)

stretch_rows-IsRow :
    (n : ℕ) (c : ValueConstraint) (k : ℕ) (rows ws : List (List ℤ))
    → All (IsRow n c) rows
    → stretch_rows k rows ≡ ok ws
    → All (IsRow n c) ws
stretch_rows-IsRow n c k [] ws h q = exactly-All (IsRow n c) [] ws (0 == k) h q
stretch_rows-IsRow n c k (row ∷ []) ws h q =
    subst (All (IsRow n c)) (ok-injective (repeat_row k row) ws q) (repeat_row-IsRow n c row k h.0)
stretch_rows-IsRow n c k (row ∷ next ∷ rows) ws h q =
    exactly-All (IsRow n c) (row ∷ next ∷ rows) ws (length (row ∷ next ∷ rows) == k) h q

rows_of-kept :
    (n : ℕ) (c : ValueConstraint) (m : Matrix)
    → refuses_matrix c m ≡ false
    → any_row_violates c (rows_of m n) ≡ false
rows_of-kept n c (low (zero_d v)) h = rw (repeat-kept c n v h) refl
rows_of-kept n c (low (one_d vs)) h = rw h refl
rows_of-kept n c (two_d k rows) h = h

pub broadcast_matrix-IsBatch :
    (n k : ℕ) (c : ValueConstraint) (m g : Matrix)
    → refuses_matrix c m ≡ false
    → broadcast_matrix k n m ≡ ok g
    → IsBatch n c g
broadcast_matrix-IsBatch n k c m g h q =
    let (wide, ew, q1) = >>=-eq-ok (stretch_each n (rows_of m n)) _ q in
    let (full, ef, q2) = >>=-eq-ok (stretch_rows k wide) _ q1 in
    subst (IsBatch n c) (ok-injective (two_d n full) g q2) (
      refl,
      stretch_rows-IsRow n c k wide full
          (stretch_each-IsRow n c (rows_of m n) wide (rows_of-kept n c m h) ew) ef,
    )
