-- ===== src/Examples/Torch.antt =====
-- Operations on index tensors that do what torch documents, for the tests.
use fvdb_core.Prelude.{
  ℕ, zero, suc, ◌+◌, ◌≡◌, refl, ap, ◌∙◌, List, [], ◌∷◌, All, get_or, count, sum, map, range,
  range_from, length-map, length-range_from, if◌then◌else◌, ◌==◌, ltb, arith, ◌<◌, Bool-cases, inl,
  inr,
}
use fvdb_core.Convolution.Coverage.Tensors.{Tensor1, IndexTensors, Ascending}
use fvdb_core.Convolution.Coverage.Counting.{sum_range, sum_range-count}

abbrev pub bins : Tensor1 → ℕ → Tensor1
bins t n = map (λ i. count i t) (range n)

abbrev pub largest : Tensor1 → ℕ
largest [] = 0
largest (x ∷ xs) = let rest = largest xs in if ltb x rest then rest else x

abbrev pub smallest : Tensor1 → ℕ
smallest [] = 0
smallest (x ∷ []) = x
smallest (x ∷ y ∷ xs) = let rest = smallest (y ∷ xs) in if ltb x rest then x else rest

-- The values from `start` on that occur, `n` values far.
abbrev pub occurring : Tensor1 → ℕ → ℕ → List (ℕ × ℕ)
occurring t start zero = []
occurring t start (suc n) =
    let rest = occurring t (start + 1) n in
    if count start t == 0 then rest else (start, count start t) ∷ rest

abbrev pub distinct : Tensor1 → List (ℕ × ℕ)
distinct t = occurring t 0 (suc (largest t))

pub get_or-map_range :
    (f : ℕ → ℕ) (start n i : ℕ) → i < n → get_or (map f (range_from start n)) i 0 ≡ f (start + i)
get_or-map_range f start zero i h = absurd (omega arith)
get_or-map_range f start (suc n) zero h = ap f (omega arith)
get_or-map_range f start (suc n) (suc i) h =
    get_or-map_range f (start + 1) n i (omega arith) ∙ ap f (omega arith)

tail-Ascending : (b : ℕ) (l : List ℕ) → Ascending (b ∷ l) → Ascending l
tail-Ascending b [] h = tt
tail-Ascending b (x ∷ l) h = h.1

occurring-Ascending :
    (t : Tensor1) (b start n : ℕ)
    → b < start
    → Ascending (b ∷ map (λ (e : ℕ × ℕ). e.0) (occurring t start n))
occurring-Ascending t b start zero h = tt
occurring-Ascending t b start (suc n) h = elim (Bool-cases (count start t == 0)) [
  | inl missing ↦ rw missing (occurring-Ascending t b (start + 1) n (omega arith))
  | inr present ↦ rw present (h, occurring-Ascending t start (start + 1) n (omega arith))
]

pub distinct-Ascending : (t : Tensor1) → Ascending (map (λ (e : ℕ × ℕ). e.0) (distinct t))
distinct-Ascending t = elim (Bool-cases (count 0 t == 0)) [
  | inl missing ↦
      rw missing (tail-Ascending 0 _ (occurring-Ascending t 0 1 (largest t) (omega arith)))
  | inr present ↦ rw present (occurring-Ascending t 0 1 (largest t) (omega arith))
]

pub occurring-counts :
    (t : Tensor1) (start n : ℕ)
    → All (λ (e : ℕ × ℕ). (e.1 ≡ count e.0 t) × (0 < e.1)) (occurring t start n)
occurring-counts t start zero = tt
occurring-counts t start (suc n) = elim (Bool-cases (count start t == 0)) [
  | inl missing ↦ rw missing (occurring-counts t (start + 1) n)
  | inr present ↦ rw present ((refl, ground arith), occurring-counts t (start + 1) n)
]

pub occurring-total :
    (t : Tensor1) (start n : ℕ)
    → sum (map (λ (e : ℕ × ℕ). e.1) (occurring t start n)) ≡ sum_range (λ i. count i t) start n
occurring-total t start zero = refl
occurring-total t start (suc n) = ground (arith, occurring-total t (start + 1) n)

pub below_largest : (t : Tensor1) (m : ℕ) → largest t < m → All (λ i. i < m) t
below_largest [] m h = tt
below_largest (x ∷ xs) m h = ground (arith, below_largest xs m)

abbrev pub torch_tensors : IndexTensors
torch_tensors = record {
  bincount = bins;
  count_eq = λ t v. count v t;
  min_item = smallest;
  max_item = largest;
  unique = distinct;
  bincount_length = λ t n h. length-map (λ i. count i t) (range n) ∙ length-range_from 0 n;
  bincount_get =
      λ t n i h. get_or-map_range (λ j. count j t) 0 n i h ∙ ap (λ j. count j t) (omega arith);
  count_eq_lem = λ t v. refl;
  unique_ascending = distinct-Ascending;
  unique_counts = λ t. occurring-counts t 0 (suc (largest t));
  unique_total = λ t.
      occurring-total t 0 (suc (largest t))
      ∙ sum_range-count (suc (largest t)) t (below_largest t _ (omega arith));
}
