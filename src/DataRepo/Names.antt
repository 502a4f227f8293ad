-- ===== src/DataRepo/Names.antt =====
-- Names of snapshots and revisions: the two regular expressions, `local_repo_path`,
-- `_is_editable_install` and `_resolve_revision` of fvdb/utils/_data_repo.py. A `$` of Python also
-- matches before a newline at the end.
use fvdb_core.Prelude.{
  ℕ, zero, suc, ◌≡◌, ◌≢◌, Bool, true, false, not, ◌&&◌, ◌||◌, List, [], ◌∷◌, ◌++◌, All, ◌==◌,
  if◌then◌else◌, arith,
}
use fvdb_core.Prelude.Results.{Result, ok, value_error, raise_if, ◌>>=◌, ◌>>◌}
use fvdb_core.DataRepo.Text.{Text, codes, between, starts_with, strip}

-- `[A-Za-z0-9_]`
abbrev pub is_word : ℕ → Bool
is_word c = between b'a' b'z' c || (between b'A' b'Z' c || (between b'0' b'9' c || c == b'_'))

-- `[A-Za-z0-9._-]`
abbrev pub is_name_char : ℕ → Bool
is_name_char c = is_word c || (c == b'.' || c == b'-')

-- `[A-Za-z0-9._-]*$`
abbrev pub matches_rest : Text → Bool
matches_rest [] = true
matches_rest (c ∷ []) = is_name_char c || c == 10
matches_rest (c ∷ d ∷ s) = is_name_char c && matches_rest (d ∷ s)

-- `_REPO_NAME_RE.match`
unfoldable pub matches_repo_name : Text → Bool
matches_repo_name [] = false
matches_repo_name (c ∷ s) = is_word c && matches_rest s

abbrev pub is_hex : ℕ → Bool
is_hex c = between b'0' b'9' c || between b'a' b'f' c

-- `[0-9a-f]{n}$`
abbrev pub matches_hex : ℕ → Text → Bool
matches_hex zero [] = true
matches_hex zero (c ∷ []) = c == 10
matches_hex zero (c ∷ d ∷ s) = false
matches_hex (suc n) [] = false
matches_hex (suc n) (c ∷ s) = is_hex c && matches_hex n s

-- `_FULL_SHA_RE.match`
unfoldable pub matches_full_sha : Text → Bool
matches_full_sha = matches_hex 40

-- A name that stands for itself in a directory: not empty, not `.` or `..`, and with no separator.
pub record IsComponent (s : Text) : Type 0 where
  pub nonempty : s ≢ []
  pub not_dot : s ≢ codes "."
  pub not_dots : s ≢ codes ".."
  pub plain : All (λ c. (c ≢ b'/') × (c ≢ 0)) s

rest-plain : (s : Text) → matches_rest s ≡ true → All (λ c. (c ≢ b'/') × (c ≢ 0)) s
rest-plain [] h = tt
rest-plain (c ∷ []) h = ground arith
rest-plain (c ∷ d ∷ s) h = ground (arith, rest-plain (d ∷ s))

-- A snapshot's name that is accepted is one path component below its directory.
pub matches_repo_name-IsComponent : (s : Text) → matches_repo_name s ≡ true → IsComponent s
unfolding matches_repo_name
matches_repo_name-IsComponent [] h = cc
matches_repo_name-IsComponent (c ∷ s) h = record {
  nonempty = λ e. cc e;
  not_dot = λ e. ground arith;
  not_dots = λ e. ground arith;
  plain = ground (arith, rest-plain s);
}

-- Where the module stands, and what the operating system says of it.
pub record Installation : Type 0 where
  pub module_path : Text
  pub site_packages : List Text
  pub has_pyproject : Bool
  pub repo_root : List Text
  pub temp_dir : List Text

abbrev pub in_site : Text → List Text → Bool
in_site path [] = false
in_site path (site ∷ sites) = starts_with path site || in_site path sites

-- `_is_editable_install`
unfoldable pub is_editable_install : Installation → Bool
is_editable_install i = not (in_site i.module_path i.site_packages) && i.has_pyproject

-- `local_repo_path`, a path by its components
unfoldable pub local_repo_path : Installation → Text → Result (List Text)
local_repo_path i name = do
  raise_if (not (matches_repo_name name)) value_error
  ok (
      (if is_editable_install i then i.repo_root ++ (codes "external" ∷ []) else i.temp_dir)
      ++ (name ∷ []))

-- `_resolve_revision`; `ask` is the request for the commit of a revision.
unfoldable pub resolve_revision : (Text → Result Text) → Text → Result Text
resolve_revision ask revision = if matches_full_sha revision then ok revision else (do
  answer ← ask revision
  raise_if (not (matches_full_sha (strip answer))) value_error
  ok (strip answer))
