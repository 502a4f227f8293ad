-- ===== src/Convolution/Coverage/Counting.antt =====
-- Counting lemmas for tensors of indices: sums over bins, and sums over a histogram.
use fvdb_core.Prelude.{
  ℕ, zero, suc, ◌+◌, ◌*◌, ◌≤◌, ◌<◌, ◌≡◌, refl, sym, ap, ap₂, ◌∙◌, List, [], ◌∷◌, map, All, get_or,
  length, count, sum, ◌==◌, if◌then◌else◌, arith,
}
use mathlib.Core.Path.{fun_ext}
use fvdb_core.Convolution.Coverage.Tensors.{Ascending}

-- g start + g (start + 1) + ..., with n terms.
abbrev pub sum_range : (ℕ → ℕ) → ℕ → ℕ → ℕ
sum_range g start zero = 0
sum_range g start (suc n) = g start + sum_range g (start + 1) n

pub sum_range-add :
    (g h : ℕ → ℕ) (start n : ℕ)
    → sum_range (λ i. g i + h i) start n ≡ sum_range g start n + sum_range h start n
sum_range-add g h start zero = omega arith
sum_range-add g h start (suc n) = omega (arith, sum_range-add g h (start + 1) n)

-- A list whose entries are `c start`, `c (start + 1)`, ... has the sum of these, under any `g`.
pub sum-map-get :
    (g c : ℕ → ℕ) (xs : List ℕ) (start : ℕ)
    → ((i : ℕ) → i < length xs → get_or xs i 0 ≡ c (start + i))
    → sum (map g xs) ≡ sum_range (λ i. g (c i)) start (length xs)
sum-map-get g c [] start h = refl
sum-map-get g c (x ∷ xs) start h =
    ap₂ ◌+◌ (ap g (h 0 (omega arith) ∙ ap c (omega arith)))
      (sum-map-get g c xs (start + 1) (λ i lt. h (suc i) (omega arith) ∙ ap c (omega arith)))

-- How often `i` is `x`.
abbrev one_at : ℕ → ℕ → ℕ
one_at x i = if i == x then 1 else 0

sum_range-one_at_below : (x start n : ℕ) → x < start → sum_range (one_at x) start n ≡ 0
sum_range-one_at_below x start zero h = refl
sum_range-one_at_below x start (suc n) h = ground (arith, sum_range-one_at_below x (start + 1) n)

sum_range-one_at : (x start n : ℕ) → start ≤ x → x < start + n → sum_range (one_at x) start n ≡ 1
sum_range-one_at x start zero h lt = absurd (omega arith)
sum_range-one_at x start (suc n) h lt =
    ground (arith, sum_range-one_at x (start + 1) n, sum_range-one_at_below x (start + 1) n)

sum_range-zero : (start n : ℕ) → sum_range (λ i. 0) start n ≡ 0
sum_range-zero start zero = refl
sum_range-zero start (suc n) = omega (arith, sum_range-zero (start + 1) n)

-- The bins together hold every index.
pub sum_range-count :
    (n : ℕ) (t : List ℕ) → All (λ i. i < n) t → sum_range (λ i. count i t) 0 n ≡ length t
sum_range-count n [] h = sum_range-zero 0 n
sum_range-count n (x ∷ t) h =
    sum_range-add (one_at x) (λ i. count i t) 0 n
    ∙ omega (arith, sum_range-one_at x 0 n, sum_range-count n t h.1)

-- A sum over the entries of a histogram, each entry a value and how often it occurs.
abbrev pub weighted : (ℕ → ℕ) → List (ℕ × ℕ) → ℕ
weighted f [] = 0
weighted f ((v, c) ∷ u) = f v * c + weighted f u

abbrev hits : (ℕ → ℕ) → List (ℕ × ℕ) → ℕ → ℕ
hits f [] x = 0
hits f ((v, c) ∷ u) x = (if v == x then f v else 0) + hits f u x

hits-split :
    (f : ℕ → ℕ) (v c : ℕ) (u : List (ℕ × ℕ)) (t : List ℕ)
    → sum (map (hits f ((v, c) ∷ u)) t) ≡ f v * count v t + sum (map (hits f u) t)
hits-split f v c u [] = omega arith
hits-split f v c u (x ∷ t) = ground (arith, hits-split f v c u t)

weighted-hits :
    (f : ℕ → ℕ) (u : List (ℕ × ℕ)) (t : List ℕ)
    → All (λ (e : ℕ × ℕ). (e.1 ≡ count e.0 t) × (0 < e.1)) u
    → weighted f u ≡ sum (map (hits f u) t)
weighted-hits f [] t h = sym (sum-map-zero t)
  where
    sum-map-zero : (t : List ℕ) → sum (map (hits f []) t) ≡ 0
    sum-map-zero [] = refl
    sum-map-zero (x ∷ t) = omega (arith, sum-map-zero t)
weighted-hits f ((v, c) ∷ u) t h =
    rw (hits-split f v c u t) (ap₂ ◌+◌ (ap (λ (k : ℕ). f v * k) h.0.0) (weighted-hits f u t h.1))

hits-one : (f : ℕ → ℕ) (u : List (ℕ × ℕ)) (x : ℕ) → hits f u x ≡ f x * hits (λ _. 1) u x
hits-one f [] x = omega arith
hits-one f ((v, c) ∷ u) x = ground (arith, hits-one f u x)

abbrev keys : List (ℕ × ℕ) → List ℕ
keys = map (λ (e : ℕ × ℕ). e.0)

hits-below : (u : List (ℕ × ℕ)) (x y : ℕ) → y ≤ x → Ascending (x ∷ keys u) → hits (λ _. 1) u y ≡ 0
hits-below [] x y le h = refl
hits-below ((v, c) ∷ u) x y le h = ground (arith, hits-below u v y)

hits-le_one : (u : List (ℕ × ℕ)) (x : ℕ) → Ascending (keys u) → hits (λ _. 1) u x ≤ 1
hits-le_one [] x h = omega arith
hits-le_one ((v, c) ∷ []) x h = ground arith
hits-le_one ((v, c) ∷ (w, d) ∷ u) x h =
    ground (arith, hits-le_one ((w, d) ∷ u) x h.1, hits-below ((w, d) ∷ u) v x)

sum-map-le_length : (g : ℕ → ℕ) (t : List ℕ) → ((x : ℕ) → g x ≤ 1) → sum (map g t) ≤ length t
sum-map-le_length g [] h = omega arith
sum-map-le_length g (x ∷ t) h = omega (arith, h x, sum-map-le_length g t h)

-- Where each element counts at most one and the sum is the length, each counts exactly one.
sum-map-times :
    (g : ℕ → ℕ) (t : List ℕ)
    → ((x : ℕ) → g x ≤ 1)
    → sum (map g t) ≡ length t
    → sum (map (λ x. x * g x) t) ≡ sum t
sum-map-times g [] h e = refl
sum-map-times g (x ∷ t) h e =
    let one : g x ≡ 1 = omega (arith, h x, sum-map-le_length g t h) in
    rw one (omega (arith, sum-map-times g t h (omega arith)))

weighted-one : (u : List (ℕ × ℕ)) → weighted (λ _. 1) u ≡ sum (map (λ (e : ℕ × ℕ). e.1) u)
weighted-one [] = refl
weighted-one ((v, c) ∷ u) = omega (arith, weighted-one u)

-- The values of a histogram, each taken as often as it occurs, add up to the sum of the tensor.
pub weighted-histogram :
    (u : List (ℕ × ℕ)) (t : List ℕ)
    → Ascending (keys u)
    → All (λ (e : ℕ × ℕ). (e.1 ≡ count e.0 t) × (0 < e.1)) u
    → sum (map (λ (e : ℕ × ℕ). e.1) u) ≡ length t
    → weighted (λ v. v) u ≡ sum t
weighted-histogram u t ascending counts total =
    weighted-hits (λ v. v) u t counts
    ∙ ap (λ (g : ℕ → ℕ). sum (map g t)) (fun_ext (hits-one (λ v. v) u))
    ∙ sum-map-times (hits (λ _. 1) u) t (λ x. hits-le_one u x ascending)
        (sym (weighted-hits (λ _. 1) u t counts) ∙ weighted-one u ∙ total)
