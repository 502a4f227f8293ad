-- ===== src/Convolution/Coverage/Tensors.antt =====
-- What fvdb/convolution_plan.py uses of torch on tensors of row indices and of degrees. The operations
-- are torch's, so they are a parameter of the model, with what their documentation says of them.
use fvdb_core.Prelude.{ℕ, ◌<◌, ◌≡◌, List, [], ◌∷◌, All, get_or, length, count, sum, map}

-- A 1-D tensor of non-negative integers.
abbrev pub Tensor1 : Type 0
Tensor1 = List ℕ

-- Each number is below the next one.
abbrev pub Ascending : List ℕ → Type 0
Ascending [] = Unit
Ascending (x ∷ []) = Unit
Ascending (x ∷ y ∷ l) = (x < y) × Ascending (y ∷ l)

pub record IndexTensors : Type 0 where
  -- `torch.bincount(t, minlength=n)`
  pub bincount : Tensor1 → ℕ → Tensor1
  -- `(t == v).sum().item()`
  pub count_eq : Tensor1 → ℕ → ℕ
  -- `t.min().item()`, `t.max().item()`
  pub min_item : Tensor1 → ℕ
  pub max_item : Tensor1 → ℕ
  -- `zip(*torch.unique(t, sorted=True, return_counts=True))`
  pub unique : Tensor1 → List (ℕ × ℕ)
  -- The bins number one more than the largest index, and at least `n`; a bin holds how often its
  -- index occurs.
  pub bincount_length : (t : Tensor1) (n : ℕ) → All (λ i. i < n) t → length (bincount t n) ≡ n
  pub bincount_get : (t : Tensor1) (n i : ℕ) → i < n → get_or (bincount t n) i 0 ≡ count i t
  pub count_eq_lem : (t : Tensor1) (v : ℕ) → count_eq t v ≡ count v t
  -- The distinct values in ascending order, each with how often it occurs.
  pub unique_ascending : (t : Tensor1) → Ascending (map (λ (e : ℕ × ℕ). e.0) (unique t))
  pub unique_counts :
      (t : Tensor1) → All (λ (e : ℕ × ℕ). (e.1 ≡ count e.0 t) × (0 < e.1)) (unique t)
  pub unique_total : (t : Tensor1) → sum (map (λ (e : ℕ × ℕ). e.1) (unique t)) ≡ length t
