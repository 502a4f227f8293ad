-- ===== src/Convolution/Residues/Once.antt =====
-- The warning is given once for a geometry, for as long as the process lives.
use fvdb_core.Prelude.{
  ℕ, ◌+◌, ◌≤◌, ◌≡◌, refl, inl, inr, Bool, true, false, List, [], ◌∷◌, ◌==◌, length, ltb, arith,
  if◌then◌else◌, Bool-cases, ◌&&◌, ◌||◌,
}
use fvdb_core.Convolution.Geometry.{ConvolutionGeometry}
use fvdb_core.Convolution.Residues.{
  GeometryKey, key_eq, warned, uncovered_axes, warn_if_incomplete_residue_coverage,
}

-- A call: the geometry, and whether the caller acknowledges incomplete coverage.
abbrev pub Call : Type 0
Call = ConvolutionGeometry × Bool

abbrev pub key_of : ConvolutionGeometry → GeometryKey
key_of g = (g.kernel_size, g.stride)

-- The warnings for one key that a sequence of calls gives, from a set of warned geometries on.
unfoldable pub warnings_for : GeometryKey → List Call → List GeometryKey → ℕ
warnings_for key [] seen = 0
warnings_for key ((g, acknowledge) ∷ calls) seen =
    let (seen', axes) = warn_if_incomplete_residue_coverage g acknowledge seen in
    (if key_eq key (key_of g) && ltb 0 (length axes) then 1 else 0) + warnings_for key calls seen'

key_eq→eq : (a b : GeometryKey) → key_eq a b ≡ true → a ≡ b
key_eq→eq a b h = ground arith

key_eq_refl : (k : GeometryKey) → key_eq k k ≡ true
key_eq_refl k = ground arith

length-eq_zero : (xs : List ℕ) → (length xs == 0) ≡ true → xs ≡ []
length-eq_zero [] h = refl
length-eq_zero (x ∷ xs) h = absurd (ground arith)

warned-warn :
    (g : ConvolutionGeometry) (acknowledge : Bool) (seen : List GeometryKey) (key : GeometryKey)
    → warned seen key ≡ true
    → warned (warn_if_incomplete_residue_coverage g acknowledge seen).0 key ≡ true
unfolding warn_if_incomplete_residue_coverage
warned-warn g acknowledge seen key h = ground arith

-- A call names the uncovered axes of its geometry, unless the caller acknowledges incomplete
-- coverage or the geometry has been warned of already: then it warns of none.
pub warn-axes :
    (g : ConvolutionGeometry) (acknowledge : Bool) (seen : List GeometryKey)
    → (warn_if_incomplete_residue_coverage g acknowledge seen).1
      ≡ (if acknowledge || warned seen (key_of g) then [] else uncovered_axes g)
unfolding warn_if_incomplete_residue_coverage
warn-axes g acknowledge seen = ground (arith, length-eq_zero (uncovered_axes g))

-- The test by which `warnings_for` counts a call.
abbrev warns_for : GeometryKey → ConvolutionGeometry → Bool → List GeometryKey → Bool
warns_for key g acknowledge seen =
    key_eq key (key_of g)
    && ltb 0 (length (warn_if_incomplete_residue_coverage g acknowledge seen).1)

warns_for-warned :
    (key : GeometryKey) (g : ConvolutionGeometry) (acknowledge : Bool) (seen : List GeometryKey)
    → warned seen key ≡ true
    → warns_for key g acknowledge seen ≡ false
warns_for-warned key g acknowledge seen h =
    ground (arith, key_eq→eq key (key_of g), warn-axes g acknowledge seen)

warned-warns_for :
    (key : GeometryKey) (g : ConvolutionGeometry) (acknowledge : Bool) (seen : List GeometryKey)
    → warns_for key g acknowledge seen ≡ true
    → warned (warn_if_incomplete_residue_coverage g acknowledge seen).0 key ≡ true
unfolding warn_if_incomplete_residue_coverage
warned-warns_for key g acknowledge seen h = ground arith

-- Once a geometry has been warned of, no later call warns of it.
pub warnings_for-warned :
    (key : GeometryKey) (calls : List Call) (seen : List GeometryKey)
    → warned seen key ≡ true
    → warnings_for key calls seen ≡ 0
unfolding warnings_for
warnings_for-warned key [] seen h = refl
warnings_for-warned key ((g, acknowledge) ∷ calls) seen h =
    rw (warns_for-warned key g acknowledge seen h)
      (omega (arith, warnings_for-warned key calls _ (warned-warn g acknowledge seen key h)))

-- A process warns of a geometry at most once, whatever calls it makes.
pub warnings_for-le_one :
    (key : GeometryKey) (calls : List Call) (seen : List GeometryKey)
    → warnings_for key calls seen ≤ 1
unfolding warnings_for
warnings_for-le_one key [] seen = omega arith
warnings_for-le_one key ((g, acknowledge) ∷ calls) seen =
    elim (Bool-cases (warns_for key g acknowledge seen)) [
      | inl now ↦ rw now (
          omega
            (arith, warnings_for-warned key calls _ (warned-warns_for key g acknowledge seen now)))
      | inr not_now ↦ rw not_now (
          omega (
            arith,
            warnings_for-le_one key calls
                (warn_if_incomplete_residue_coverage g acknowledge seen).0,
          ))
    ]
