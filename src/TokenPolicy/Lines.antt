-- ===== src/TokenPolicy/Lines.antt =====
-- The textual rules of .github/scripts/check_runner_token_policy.py: its regular expressions on a line.
pub mod Forms
pub mod Blanket
use fvdb_core.Prelude.{
  ℕ, ◌≡◌, Bool, true, false, not, ◌&&◌, ◌||◌, Option, none, some, List, [], ◌∷◌, ◌++◌,
  if◌then◌else◌, ◌==◌,
}
use fvdb_core.DataRepo.Text.{Text, codes, same, starts_with, contains_text, is_space, between}
use fvdb_core.DataRepo.Names.{is_word}
use fvdb_core.TokenPolicy.Yaml.{token_name}

abbrev pub skip_spaces : Text → Text
skip_spaces [] = []
skip_spaces (c ∷ s) = if is_space c then skip_spaces s else c ∷ s

-- What follows a literal.
abbrev pub after_literal : Text → Text → Option Text
after_literal s [] = some s
after_literal [] (d ∷ t) = none
after_literal (c ∷ s) (d ∷ t) = if c == d then after_literal s t else none

-- The regular expression `^\s*L1\s*L2\s*…\s*$` of literals that begin with no blank.
unfoldable pub matches_line : List Text → Text → Bool
matches_line [] s = same (skip_spaces s) []
matches_line (l ∷ ls) s = elim (after_literal (skip_spaces s) l) [
  | none ↦ false
  | some rest ↦ matches_line ls rest
]

-- `_INTERP`
abbrev pub interpolation : List Text
interpolation = codes "${{" ∷ (codes "secrets." ++ token_name) ∷ codes "}}" ∷ []

-- `ACTION_INPUT_LINE`, `FORWARD_LINE`, `DECLARE_LINE`
abbrev pub action_input_line : List Text
action_input_line = codes "github-token:" ∷ interpolation

abbrev pub forward_line : List Text
forward_line = (token_name ++ codes ":") ∷ interpolation

abbrev pub declare_line : List Text
declare_line = (token_name ++ codes ":") ∷ []

unfoldable pub is_allowed_line : Text → Bool
is_allowed_line line =
    matches_line action_input_line line
    || (matches_line forward_line line || matches_line declare_line line)

-- `INHERIT_LINE`
abbrev pub inherit_line : List Text
inherit_line = codes "secrets:" ∷ codes "inherit" ∷ []

unfoldable pub is_inherit_line : Text → Bool
is_inherit_line = matches_line inherit_line

abbrev pub is_secrets_index : Text → Bool
is_secrets_index s = elim (after_literal s (codes "secrets")) [
  | none ↦ false
  | some rest ↦ starts_with (skip_spaces rest) (codes "[")
]

-- `DYNAMIC_SECRET.search`: `before` says whether the character before is one of a word. Of the
-- characters of a word those of ASCII are read.
unfoldable pub has_dynamic_secret : Bool → Text → Bool
has_dynamic_secret before [] = false
has_dynamic_secret before (c ∷ s) =
    (not before && is_secrets_index (c ∷ s)) || has_dynamic_secret (is_word c) s
