-- ===== src/Convolution/Residues/Count.antt =====
-- How many residues a kernel reaches: as many as it has taps, up to all of them.
use fvdb_core.Prelude.{
  ℕ, zero, suc, ◌+◌, ◌-◌, ◌≤◌, ◌<◌, ◌≡◌, sym, ap, ◌∙◌, inl, inr, true, false, ◌==◌, length, min,
  arith, Bool-cases,
}
use fvdb_core.Prelude.Int.{pos, ◌+ℤ◌, ◌-ℤ◌, int_laws}
use fvdb_core.Prelude.Floor.{floor_mod, floor_mod-add_self, floor_mod-separates}
use fvdb_core.Prelude.Sets.{contains, contains-add, length-add_old, length-add_new}
use native.Mathlib.Decide.{dec_lt}
use fvdb_core.Convolution.Residues.{residue, residues}

module _ (s p : ℕ) (positive : 0 < s) where
  residue-period : (t : ℕ) → residue s p (t + s) ≡ residue s p t
  unfolding residue
  residue-period t = ap (λ a. floor_mod a s) shift ∙ floor_mod-add_self (pos t -ℤ pos p) s positive
    where
      shift : pos (t + s) -ℤ pos p ≡ (pos t -ℤ pos p) +ℤ pos s
      shift = omega int_laws

  residue-separates : (t d : ℕ) → d < s → residue s p (t + d) ≡ residue s p t → d ≡ 0
  unfolding residue
  residue-separates t d h e =
      floor_mod-separates (pos t -ℤ pos p) d s h (ap (λ a. floor_mod a s) (sym shift) ∙ e)
    where
      shift : pos (t + d) -ℤ pos p ≡ (pos t -ℤ pos p) +ℤ pos d
      shift = omega int_laws

  residues-contain : (k t : ℕ) → t < k → contains (residues s p k) (residue s p t) ≡ true
  unfolding residues
  residues-contain zero t h = absurd (omega arith)
  residues-contain (suc k) t h =
      ground
        (arith, contains-add (residue s p k) (residue s p t) (residues s p k), residues-contain k t)

  residues_sound :
      (k r : ℕ) → contains (residues s p k) r ≡ true → (t : ℕ) × (t < k) × (residue s p t ≡ r)
  unfolding residues
  residues_sound zero r h = cc
  residues_sound (suc k) r h = elim (Bool-cases (r == residue s p k)) [
    | inl same ↦ (k, omega arith, ground arith)
    | inr other ↦
        let earlier : contains (residues s p k) r ≡ true =
          ground (arith, contains-add (residue s p k) r (residues s p k)) in
        let (t, lt, e) = residues_sound k r earlier in (t, omega arith, e)
  ]

  residue-new : (k : ℕ) → k < s → contains (residues s p k) (residue s p k) ≡ false
  residue-new k h = elim (Bool-cases (contains (residues s p k) (residue s p k))) [
    | inl old ↦
        let (t, lt, e) = residues_sound k (residue s p k) old in
        let back : t + (k - t) ≡ k = omega arith in
        absurd (omega (arith, residue-separates t (k - t) (omega arith) (rw back (sym e))))
    | inr fresh ↦ fresh
  ]

  residue-old : (k : ℕ) → s ≤ k → contains (residues s p k) (residue s p k) ≡ true
  residue-old k h =
      let back : k - s + s ≡ k = omega arith in
      let same : residue s p (k - s) ≡ residue s p k =
        sym (residue-period (k - s)) ∙ ap (residue s p) back in
      ground (arith, residues-contain k (k - s))

  -- With a positive stride the taps of a kernel of size `k` reach `min k s` of the `s` residues.
  pub length-residues : (k : ℕ) → length (residues s p k) ≡ min k s
  unfolding residues
  length-residues zero = omega arith
  length-residues (suc k) = elim (dec_lt k s) [
    | yes below ↦ omega (
      arith,
      length-add_new (residue s p k) (residues s p k) (residue-new k below),
      length-residues k,
    )
    | no above ↦ omega (
      arith,
      length-add_old (residue s p k) (residues s p k) (residue-old k (omega arith)),
      length-residues k,
    )
  ]
