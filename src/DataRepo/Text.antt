-- ===== src/DataRepo/Text.antt =====
-- Text as code points, and what fvdb/utils/_data_repo.py uses of Python's `str` on it.
use Prim.Native.Char.{code}
use Prim.Native.String.{String}
use fvdb_core.Prelude.{
  ℕ, ◌≡◌, refl, ap, ◌∙◌, Bool, true, false, ◌&&◌, ◌||◌, List, [], ◌∷◌, ◌++◌, All, ◌==◌, leb,
  if◌then◌else◌, arith, ◌↔◌,
}

abbrev pub Text : Type 0
Text = List ℕ

abbrev pub codes : String → Text
codes String.[] = []
codes (String.◌∷◌ c s) = code c ∷ codes s

abbrev pub same : Text → Text → Bool
same [] [] = true
same [] (d ∷ t) = false
same (c ∷ s) [] = false
same (c ∷ s) (d ∷ t) = c == d && same s t

pub same_iff : (s t : Text) → (same s t ≡ true) ↔ (s ≡ t)
same_iff [] [] = ground arith
same_iff [] (d ∷ t) = ground arith
same_iff (c ∷ s) [] = ground arith
same_iff (c ∷ s) (d ∷ t) = ground (arith, same_iff s t)

abbrev pub starts_with : Text → Text → Bool
starts_with s [] = true
starts_with [] (d ∷ t) = false
starts_with (c ∷ s) (d ∷ t) = c == d && starts_with s t

-- `t in s`
abbrev pub contains_text : Text → Text → Bool
contains_text [] t = starts_with [] t
contains_text (c ∷ s) t = starts_with (c ∷ s) t || contains_text s t

abbrev pub ends_with : Text → Text → Bool
ends_with [] t = same [] t
ends_with (c ∷ s) t = same (c ∷ s) t || ends_with s t

abbrev pub between : ℕ → ℕ → ℕ → Bool
between lo hi c = leb lo c && leb c hi

-- `str.isspace` of one character
unfoldable pub is_space : ℕ → Bool
is_space c =
    between 9 13 c
    || (between 28 32 c
        || (c == 133
            || (c == 160
                || (c == 5760
                    || (between 8192 8202 c
                        || (c == 8232
                            || (c == 8233 || (c == 8239 || (c == 8287 || c == 12288)))))))))

unfoldable pub lstrip : Text → Text
lstrip [] = []
lstrip (c ∷ s) = if is_space c then lstrip s else c ∷ s

-- One character before text that is stripped at the end.
abbrev pub before_stripped : ℕ → Text → Text
before_stripped c [] = if is_space c then [] else c ∷ []
before_stripped c (d ∷ s) = c ∷ d ∷ s

unfoldable pub rstrip : Text → Text
rstrip [] = []
rstrip (c ∷ s) = before_stripped c (rstrip s)

-- `str.strip()`
unfoldable pub strip : Text → Text
strip s = rstrip (lstrip s)

newline-is_space : is_space 10 ≡ true
unfolding is_space
newline-is_space = refl

before_stripped-kept : (c : ℕ) (s : Text) → is_space c ≡ false → before_stripped c s ≡ c ∷ s
before_stripped-kept c [] h = rw h
before_stripped-kept c (d ∷ s) h = refl

rstrip-newline : (s : Text) → All (λ c. is_space c ≡ false) s → rstrip (s ++ (10 ∷ [])) ≡ s
unfolding rstrip
rstrip-newline [] h = rw newline-is_space
rstrip-newline (c ∷ s) h =
    ap (before_stripped c) (rstrip-newline s h.1) ∙ before_stripped-kept c s h.0

rstrip-nil : rstrip [] ≡ []
unfolding rstrip
rstrip-nil = refl

-- Text with no blank in it, followed by a newline, is stripped to itself.
pub strip-newline : (s : Text) → All (λ c. is_space c ≡ false) s → strip (s ++ (10 ∷ [])) ≡ s
unfolding strip lstrip
strip-newline [] h = rw newline-is_space rstrip-nil
strip-newline (c ∷ s) h = rw h.0 (rstrip-newline (c ∷ s) h)
