-- ===== src/Prelude/Floor.antt =====
-- Python's `//` and `%` on an integer and a positive number: the quotient is rounded down, and the
-- remainder has the divisor's sign.
use fvdb_core.Prelude.Int.{
  ℤ, pos, negsuc, pos_part, neg_part, ◌+ℤ◌, ◌*ℤ◌, int_laws, eq_of_parts, +ℤ_parts, parts,
}
use Prim.Native.Nat.{ℕ, ◌+◌, ◌-◌, ◌*◌, ◌/◌, ◌%◌, ◌<◌}
use mathlib.Core.Path.{◌≡◌, sym, ◌∙◌, ap}
use native.Mathlib.Nat.{mul-add-div, div-eq_of_lt}
use native.Mathlib.Omega.{arith}

unfoldable pub floor_div : ℤ → ℕ → ℤ
floor_div (pos n) s = pos (n / s)
floor_div (negsuc n) s = negsuc (n / s)

unfoldable pub floor_mod : ℤ → ℕ → ℕ
floor_mod (pos n) s = n % s
floor_mod (negsuc n) s = s - 1 - n % s

pub floor_mod-lt : (a : ℤ) (s : ℕ) → 0 < s → floor_mod a s < s
unfolding floor_mod
floor_mod-lt (pos n) s h = grind arith
floor_mod-lt (negsuc n) s h = grind arith

-- a = s * (a // s) + a % s
pub floor_div-mod : (a : ℤ) (s : ℕ) → 0 < s → pos s *ℤ floor_div a s +ℤ pos (floor_mod a s) ≡ a
unfolding floor_div floor_mod ◌+ℤ◌ ◌*ℤ◌
floor_div-mod (pos n) s h = grind arith
floor_div-mod (negsuc n) s h = grind arith

-- A quotient and a remainder below the divisor are determined by what they add up to.
div_mod_unique : (s a b x y : ℕ) → x < s → y < s → s * a + x ≡ s * b + y → (a ≡ b) × (x ≡ y)
div_mod_unique s a b x y hx hy e = (same, omega (arith, ap (λ (t : ℕ). s * t) same))
  where
    quotient : (c z : ℕ) → z < s → (s * c + z) / s ≡ c
    quotient c z hz =
        rw (mul-add-div {m = s} (omega arith) c z) (rw (div-eq_of_lt hz) (omega arith))

    same : a ≡ b
    same = sym (quotient a x hx) ∙ ap (λ (t : ℕ). t / s) e ∙ quotient b y hy

pub floor_unique :
    (a q : ℤ) (r s : ℕ)
    → r < s
    → pos s *ℤ q +ℤ pos r ≡ a
    → (floor_div a s ≡ q) × (floor_mod a s ≡ r)
floor_unique a q r s h e = (eq_of_parts _ _ (omega (arith, both.0)), both.1)
  where
    total : pos s *ℤ floor_div a s +ℤ pos (floor_mod a s) ≡ pos s *ℤ q +ℤ pos r
    total = floor_div-mod a s (omega arith) ∙ sym e

    both :
        (pos_part (floor_div a s) + neg_part q ≡ neg_part (floor_div a s) + pos_part q)
        × (floor_mod a s ≡ r)
    both =
        div_mod_unique s _ _ _ _ (floor_mod-lt a s (omega arith)) h (omega (int_laws, parts total))

-- Adding the divisor keeps the remainder.
pub floor_mod-add_self : (a : ℤ) (s : ℕ) → 0 < s → floor_mod (a +ℤ pos s) s ≡ floor_mod a s
floor_mod-add_self a s h =
    (floor_unique (a +ℤ pos s) (floor_div a s +ℤ pos 1) (floor_mod a s) s (floor_mod-lt a s h)
      next).1
  where
    quotients : pos s *ℤ (floor_div a s +ℤ pos 1) ≡ pos s *ℤ floor_div a s +ℤ pos s
    quotients = omega (int_laws, ap (λ (t : ℕ). s * t) (+ℤ_parts (floor_div a s) (pos 1)))

    next : pos s *ℤ (floor_div a s +ℤ pos 1) +ℤ pos (floor_mod a s) ≡ a +ℤ pos s
    next = rw quotients (omega (int_laws, parts (floor_div-mod a s h)))

-- Two integers with the same remainder do not stand less than the divisor apart.
pub floor_mod-separates :
    (a : ℤ) (d s : ℕ) → d < s → floor_mod (a +ℤ pos d) s ≡ floor_mod a s → d ≡ 0
floor_mod-separates a d s h e = sym (div_mod_unique s upper lower 0 d (omega arith) h apart).1
  where
    p : ℤ
    p = floor_div (a +ℤ pos d) s

    q : ℤ
    q = floor_div a s

    upper : ℕ
    upper = pos_part p + neg_part q

    lower : ℕ
    lower = neg_part p + pos_part q

    both : pos s *ℤ p +ℤ pos (floor_mod a s) ≡ a +ℤ pos d
    both = rw e at (floor_div-mod (a +ℤ pos d) s (omega arith))

    apart : s * upper + 0 ≡ s * lower + d
    apart = omega (int_laws, parts both, parts (floor_div-mod a s (omega arith)))
