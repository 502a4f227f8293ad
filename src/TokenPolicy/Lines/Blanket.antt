-- ===== src/TokenPolicy/Lines/Blanket.antt =====
-- What rules 5 and 6 of .github/scripts/check_runner_token_policy.py find in a line.
use fvdb_core.Prelude.{◌≡◌, refl, Bool, true, false, [], ◌∷◌, ◌++◌, arith}
use fvdb_core.DataRepo.Text.{Text, codes, is_space}
use fvdb_core.DataRepo.Names.{is_word}
use fvdb_core.TokenPolicy.Lines.{
  inherit_line, is_inherit_line, is_secrets_index, has_dynamic_secret,
}
use fvdb_core.TokenPolicy.Lines.Forms.{IsBlank, Reads, matches_line_iff, skip_spaces-solid}

-- Whether the text ends in a character of a word, where `before` says it of what stands before it.
abbrev pub ends_in_word : Bool → Text → Bool
ends_in_word before [] = before
ends_in_word before (c ∷ s) = ends_in_word (is_word c) s

-- `secrets` at the beginning of a word, with blanks and a bracket after it.
pub record IsIndex (line : Text) : Type 0 where
  pub before : Text
  pub gap : Text
  pub rest : Text
  pub parts : line ≡ (before ++ (codes "secrets" ++ (gap ++ (b'[' ∷ rest))))
  pub is_blank : IsBlank gap
  pub at_word : ends_in_word false before ≡ false

index-found :
    (gap rest : Text)
    → IsBlank gap
    → is_secrets_index (codes "secrets" ++ (gap ++ (b'[' ∷ rest))) ≡ true
unfolding is_space
index-found gap rest blank = rw (skip_spaces-solid gap b'[' rest blank refl) refl

found_after :
    (b : Bool) (before gap rest : Text)
    → IsBlank gap
    → ends_in_word b before ≡ false
    → has_dynamic_secret b (before ++ (codes "secrets" ++ (gap ++ (b'[' ∷ rest)))) ≡ true
unfolding has_dynamic_secret
found_after b [] gap rest blank e = rw e (rw (index-found gap rest blank) refl)
found_after b (c ∷ before) gap rest blank e =
    rw (found_after (is_word c) before gap rest blank e) (ground arith)

pub IsIndex-found : (line : Text) → IsIndex line → has_dynamic_secret false line ≡ true
IsIndex-found line i = rw i.parts (found_after false i.before i.gap i.rest i.is_blank i.at_word)

pub is_inherit_line-found : (line : Text) → Reads inherit_line line → is_inherit_line line ≡ true
unfolding is_inherit_line is_space
is_inherit_line-found line r = (matches_line_iff inherit_line line (refl, (refl, tt))).1 r
