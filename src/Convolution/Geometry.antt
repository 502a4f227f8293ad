-- ===== src/Convolution/Geometry.antt =====
-- `ConvolutionGeometry` of src/fvdb/detail/ops/convolution/ConvolutionGeometry.h, as Python code sees
-- it through `_fvdb_cpp.ConvolutionGeometry`: its checked construction and its attributes. The sizes that
-- Python gives are 64-bit integers, which `pyToCoord` of src/python/Bindings.cpp narrows to the 32 bits of
-- a `nanovdb::Coord`; the volume is an `int64_t`, and the loop that multiplies it checks its range.
use fvdb_core.Prelude.{
  ℕ, ◌-◌, ◌*◌, ◌/◌, ◌^◌, ◌≤◌, ◌<◌, ◌≡◌, if◌then◌else◌, leb, ltb, ◌%◌, arith, leb→le, Bool-cases,
  inl, inr, ap, ◌∙◌, refl, subst, Bool, false,
}
use fvdb_core.Prelude.Int.{ℤ, pos, negsuc, pos_part, leb_ℤ}
use fvdb_core.Prelude.Results.{
  Result, ok, raise, value_error, raise_if, ◌>>=◌, ◌>>◌, >>=-eq-ok, ok-injective, raise_if-eq-ok,
}
use native.Mathlib.Nat.{le-div_iff_mul-le}
use fvdb_core.Convolution.Vectors.{Coord, Kernel, vec3, map3, any3, All3}

pub record ConvolutionGeometry : Type 0 where
  pub kernel_size : Kernel
  pub stride : Kernel
  pub padding_before : Kernel
  pub padding_after : Kernel
  pub kernel_volume : ℕ

abbrev pub int64_max : ℕ
int64_max = 2 ^ 63 - 1

-- One round of the loop of `checkedKernelVolume`.
unfoldable pub checked_times : ℕ → ℕ → Result ℕ
checked_times volume size =
    if leb volume (int64_max / size) then ok (volume * size) else raise value_error

unfoldable pub checked_kernel_volume : Kernel → Result ℕ
checked_kernel_volume k = do
  vx ← checked_times 1 k.x
  vxy ← checked_times vx k.y
  checked_times vxy k.z

abbrev pub padding_before_for : Kernel → Kernel
padding_before_for = map3 (λ k. (k - 1) / 2)

abbrev pub padding_after_for : Kernel → Kernel
padding_after_for = map3 (λ k. k - 1 - (k - 1) / 2)

-- A residue below 2 ^ 32, read as an `int32_t`.
abbrev pub signed_int32 : ℕ → ℤ
signed_int32 r = if ltb r (2 ^ 31) then pos r else negsuc (2 ^ 32 - 1 - r)

-- The conversion of an `int64_t` to an `int32_t`.
unfoldable pub to_int32 : ℤ → ℤ
to_int32 (pos n) = signed_int32 (n % (2 ^ 32))
to_int32 (negsuc n) = signed_int32 (2 ^ 32 - 1 - n % (2 ^ 32))

-- A narrowed size that passed the check, as a natural number.
abbrev pub size_of : ℤ → ℕ
size_of v = pos_part (to_int32 v)

-- `value <= 0`
abbrev pub is_refused : ℤ → Bool
is_refused v = leb_ℤ (to_int32 v) (pos 0)

unfoldable pub convolution_geometry : Coord → Coord → Result ConvolutionGeometry
unfolding checked_kernel_volume checked_times
convolution_geometry k s = do
  raise_if (any3 is_refused k) value_error
  raise_if (any3 is_refused s) value_error
  volume ← checked_kernel_volume (map3 size_of k)
  ok (record {
    kernel_size = map3 size_of k;
    stride = map3 size_of s;
    padding_before = padding_before_for (map3 size_of k);
    padding_after = padding_after_for (map3 size_of k);
    kernel_volume = volume;
  })

-- A positive number of 31 bits.
abbrev pub IsSize32 : ℕ → Type 0
IsSize32 v = (0 < v) × (v < 2 ^ 31)

-- What the constructor guarantees of a geometry.
pub record IsGeometry (g : ConvolutionGeometry) : Type 0 where
  pub kernel_in_range : All3 IsSize32 g.kernel_size
  pub stride_in_range : All3 IsSize32 g.stride
  pub before : g.padding_before ≡ padding_before_for g.kernel_size
  pub after : g.padding_after ≡ padding_after_for g.kernel_size
  pub volume : g.kernel_volume ≡ g.kernel_size.x * g.kernel_size.y * g.kernel_size.z
  pub in_range : g.kernel_volume ≤ int64_max

-- Sizes of 31 bits are kept by the conversion.
pub size_of-small : (n : ℕ) → n < 2 ^ 31 → size_of (pos n) ≡ n
unfolding to_int32
size_of-small n h = ground arith

pub sizes_of-small : (k : Kernel) → All3 (λ n. n < 2 ^ 31) k → map3 size_of (map3 pos k) ≡ k
sizes_of-small k h =
    ground (arith, size_of-small k.x h.0, size_of-small k.y h.1, size_of-small k.z h.2)

-- A narrowed value that is not refused is a size.
size_of-accepted :
    (v : ℤ) → is_refused v ≡ false → (pos (size_of v) ≡ to_int32 v) × IsSize32 (size_of v)
unfolding to_int32
size_of-accepted (pos n) h = ground arith
size_of-accepted (negsuc n) h = ground arith

sizes_of-accepted :
    (k : Coord)
    → any3 is_refused k ≡ false
    → (map3 pos (map3 size_of k) ≡ map3 to_int32 k) × All3 IsSize32 (map3 size_of k)
sizes_of-accepted k h =
    let (ex, px) = size_of-accepted k.x (ground arith) in
    let (ey, py) = size_of-accepted k.y (ground arith) in
    let (ez, pz) = size_of-accepted k.z (ground arith) in
    (λ i. vec3 (ex i) (ey i) (ez i), (px, py, pz))

checked_times-eq_ok :
    (volume size w : ℕ)
    → 0 < size
    → checked_times volume size ≡ ok w
    → (w ≡ volume * size) × (w ≤ int64_max)
unfolding checked_times
checked_times-eq_ok volume size w h e = elim (Bool-cases (leb volume (int64_max / size))) [
  | inl fits ↦
      ground (arith, (le-div_iff_mul-le {x = volume} {y = int64_max} h).0 (leb→le _ _ fits))
  | inr over ↦ ground arith
]

checked_kernel_volume-eq_ok :
    (k : Kernel) (w : ℕ)
    → All3 (λ v. 0 < v) k
    → checked_kernel_volume k ≡ ok w
    → (w ≡ k.x * k.y * k.z) × (w ≤ int64_max)
unfolding checked_kernel_volume
checked_kernel_volume-eq_ok k w h e =
    let (vx, ex, rest) = >>=-eq-ok (checked_times 1 k.x) _ e in
    let (vxy, exy, last) = >>=-eq-ok (checked_times vx k.y) _ rest in
    let (first, _) = checked_times-eq_ok 1 k.x vx h.0 ex in
    let (second, _) = checked_times-eq_ok vx k.y vxy h.1 exy in
    let (third, fits) = checked_times-eq_ok vxy k.z w h.2 last in
    (third ∙ ap (λ (t : ℕ). t * k.z) (second ∙ ap (λ (t : ℕ). t * k.y) (omega arith)), fits)

-- A geometry that is constructed has the sizes that remain of the given ones in 32 bits with a sign, all
-- of them positive, the paddings of its kernel, and a volume that is their product and has not overflowed.
pub convolution_geometry-IsGeometry :
    (k s : Coord) (g : ConvolutionGeometry)
    → convolution_geometry k s ≡ ok g
    → (map3 pos g.kernel_size ≡ map3 to_int32 k)
      × (map3 pos g.stride ≡ map3 to_int32 s)
      × IsGeometry g
unfolding convolution_geometry
convolution_geometry-IsGeometry k s g e =
    let (_, ek, rest) = >>=-eq-ok (raise_if (any3 is_refused k) value_error) _ e in
    let (_, es, rest') = >>=-eq-ok (raise_if (any3 is_refused s) value_error) _ rest in
    let (w, ew, last) = >>=-eq-ok (checked_kernel_volume (map3 size_of k)) _ rest' in
    let (kept, kp) = sizes_of-accepted k (raise_if-eq-ok _ _ ek) in
    let (steps, sp) = sizes_of-accepted s (raise_if-eq-ok _ _ es) in
    let (product, bound) =
      checked_kernel_volume-eq_ok (map3 size_of k) w (kp.0.0, kp.1.0, kp.2.0) ew in
    let P : ConvolutionGeometry → Type 0 = λ (q : ConvolutionGeometry).
      (map3 pos q.kernel_size ≡ map3 to_int32 k)
      × (map3 pos q.stride ≡ map3 to_int32 s)
      × IsGeometry q in
    subst P (ok-injective _ g last) (
      kept,
      steps,
      record {
        kernel_in_range = kp;
        stride_in_range = sp;
        before = refl;
        after = refl;
        volume = product;
        in_range = bound;
      },
    )

-- Where the given sizes have 31 bits they are the geometry's.
pub convolution_geometry-sizes :
    (k s : Kernel) (g : ConvolutionGeometry)
    → convolution_geometry (map3 pos k) (map3 pos s) ≡ ok g
    → All3 (λ n. n < 2 ^ 31) k
    → All3 (λ n. n < 2 ^ 31) s
    → (g.kernel_size ≡ k) × (g.stride ≡ s)
convolution_geometry-sizes k s g e hk hs =
    let (ek, es, _) = convolution_geometry-IsGeometry (map3 pos k) (map3 pos s) g e in
    (ap (map3 pos_part) ek ∙ sizes_of-small k hk, ap (map3 pos_part) es ∙ sizes_of-small s hs)

-- Three equal sizes below 2 ^ 31.
pub all_small : (v : Kernel) (n : ℕ) → v ≡ vec3 n n n → n < 2 ^ 31 → All3 (λ m. m < 2 ^ 31) v
all_small v n e h = rw e (h, h, h)
