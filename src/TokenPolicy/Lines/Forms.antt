-- ===== src/TokenPolicy/Lines/Forms.antt =====
-- What the regular expressions on a line accept.
use fvdb_core.Prelude.{
  ℕ, ◌≡◌, refl, sym, ap, subst, ◌∙◌, Bool, true, false, ◌||◌, some, List, [], ◌∷◌, ◌++◌, All, ◌==◌,
  ==_iff, ==_refl, Bool-cases, Option-cases, ◌⊎◌, inl, inr, ◌↔◌,
}
use fvdb_core.DataRepo.Text.{Text, same_iff, is_space}
use fvdb_core.TokenPolicy.Lines.{
  skip_spaces, after_literal, matches_line, action_input_line, forward_line, declare_line,
  is_allowed_line,
}

abbrev pub IsBlank : Text → Type 0
IsBlank = All (λ c. is_space c ≡ true)

-- A text is a gap and a literal in turn, and a gap at the end, where a gap is blanks alone.
abbrev pub Reads : List Text → Text → Type 0
Reads [] s = IsBlank s
Reads (l ∷ ls) s =
    (gap : Text) × (rest : Text) × (s ≡ (gap ++ (l ++ rest))) × IsBlank gap × Reads ls rest

-- A literal that begins with no blank.
abbrev pub IsSolid : Text → Type 0
IsSolid [] = ⊥
IsSolid (c ∷ l) = is_space c ≡ false

skip_spaces-gap : (s : Text) → (gap : Text) × (s ≡ (gap ++ skip_spaces s)) × IsBlank gap
skip_spaces-gap [] = ([], refl, tt)
skip_spaces-gap (c ∷ s) = elim (Bool-cases (is_space c)) [
  | inl blank ↦
      let (gap, e, b) = skip_spaces-gap s in (c ∷ gap, rw blank (ap (◌∷◌ c) e), (blank, b))
  | inr solid ↦ ([], rw solid refl, tt)
]

pub skip_spaces-solid :
    (gap : Text) (c : ℕ) (s : Text)
    → IsBlank gap
    → is_space c ≡ false
    → skip_spaces (gap ++ (c ∷ s)) ≡ c ∷ s
skip_spaces-solid [] c s b h = rw h refl
skip_spaces-solid (d ∷ gap) c s b h = rw b.0 (skip_spaces-solid gap c s b.1 h)

skip_spaces-blank : (s : Text) → IsBlank s → skip_spaces s ≡ []
skip_spaces-blank [] b = refl
skip_spaces-blank (c ∷ s) b = rw b.0 (skip_spaces-blank s b.1)

after_literal-rest : (s l rest : Text) → after_literal s l ≡ some rest → s ≡ (l ++ rest)
after_literal-rest s [] rest h = cc
after_literal-rest [] (d ∷ t) rest h = absurd (cc h)
after_literal-rest (c ∷ s) (d ∷ t) rest h = elim (Bool-cases (c == d)) [
  | inl e ↦
      ap (λ x. x ∷ s) ((==_iff c d).0 e) ∙ ap (◌∷◌ d) (after_literal-rest s t rest (rw e at h))
  | inr n ↦ absurd (cc (rw n at h))
]

after_literal-append : (l rest : Text) → after_literal (l ++ rest) l ≡ some rest
after_literal-append [] rest = refl
after_literal-append (c ∷ l) rest = rw (==_refl c) (after_literal-append l rest)

IsBlank-append : (gap : Text) → IsBlank gap → IsBlank (gap ++ [])
IsBlank-append [] b = tt
IsBlank-append (c ∷ gap) b = (b.0, IsBlank-append gap b.1)

matches_line-Reads : (ls : List Text) (s : Text) → matches_line ls s ≡ true → Reads ls s
unfolding matches_line
matches_line-Reads [] s h =
    let (gap, e, b) = skip_spaces-gap s in
    subst IsBlank (sym (e ∙ ap (λ t. gap ++ t) ((same_iff (skip_spaces s) []).0 h)))
      (IsBlank-append gap b)
matches_line-Reads (l ∷ ls) s h = elim (Option-cases (after_literal (skip_spaces s) l)) [
  | inl n ↦ absurd (cc (rw (n, matches_line) at h))
  | inr (rest, e) ↦
      let (gap, split, b) = skip_spaces-gap s in
      (
        gap,
        rest,
        split ∙ ap (λ t. gap ++ t) (after_literal-rest (skip_spaces s) l rest e),
        b,
        matches_line-Reads ls rest (rw (e, matches_line) at h),
      )
]

Reads-matches_line :
    (ls : List Text) (s : Text) → All IsSolid ls → Reads ls s → matches_line ls s ≡ true
unfolding matches_line
Reads-matches_line [] s solid r = rw (skip_spaces-blank s r) refl
Reads-matches_line ([] ∷ ls) s solid r = absurd solid.0
Reads-matches_line ((c ∷ l) ∷ ls) s solid (gap, rest, e, b, r) = rw e (
    rw (matches_line, skip_spaces-solid gap c (l ++ rest) b solid.0)
      (rw (after_literal-append (c ∷ l) rest) (Reads-matches_line ls rest solid.1 r)))

forms-IsSolid : All IsSolid action_input_line × All IsSolid forward_line × All IsSolid declare_line
unfolding is_space
forms-IsSolid = ((refl, (refl, (refl, (refl, tt)))), (refl, (refl, (refl, (refl, tt)))), (refl, tt))

-- One of three tests.
one_of_iff :
    {P Q R : Type 0} (a b c : Bool)
    → ((a ≡ true) ↔ P)
    → ((b ≡ true) ↔ Q)
    → ((c ≡ true) ↔ R)
    → ((a || (b || c)) ≡ true) ↔ (P ⊎ (Q ⊎ R))
one_of_iff true b c p q r = (λ h. inl (p.0 refl), λ h. refl)
one_of_iff false true c p q r = (λ h. inr (inl (q.0 refl)), λ h. refl)
one_of_iff false false c p q r = (
  λ h. inr (inr (r.0 h)),
  λ h. elim h [
    | inl x ↦ absurd (cc (p.1 x))
    | inr (inl y) ↦ absurd (cc (q.1 y))
    | inr (inr z) ↦ r.1 z
  ],
)

pub matches_line_iff :
    (ls : List Text) (s : Text) → All IsSolid ls → (matches_line ls s ≡ true) ↔ Reads ls s
matches_line_iff ls s solid = (matches_line-Reads ls s, Reads-matches_line ls s solid)

-- A line is allowed to name the token if and only if it is, but for blanks around them, the parts of
-- one of the three forms: `github-token:` or the token's name with a colon, and then `${{`, the secret
-- and `}}`; or the token's name with a colon alone.
pub is_allowed_line_iff :
    (line : Text)
    → (is_allowed_line line ≡ true)
      ↔ (Reads action_input_line line ⊎ (Reads forward_line line ⊎ Reads declare_line line))
unfolding is_allowed_line
is_allowed_line_iff line =
    let (action, forward, declare) = forms-IsSolid in
    one_of_iff _ _ _ (matches_line_iff action_input_line line action)
      (matches_line_iff forward_line line forward) (matches_line_iff declare_line line declare)
