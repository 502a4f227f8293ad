-- ===== src/TokenPolicy/Run.antt =====
-- `check_no_leaks_outside_workflows` and `main` of .github/scripts/check_runner_token_policy.py.
pub mod Safety
use fvdb_core.Prelude.{
  ℕ, ◌≡◌, Bool, true, false, not, ◌&&◌, ◌||◌, Option, none, some, List, [], ◌∷◌, ◌++◌,
  if◌then◌else◌, ◌==◌,
}
use fvdb_core.Prelude.Results.{Result, ok, raise, index_error, ◌>>=◌}
use fvdb_core.DataRepo.Text.{Text, codes, starts_with, strip}
use fvdb_core.TokenPolicy.Yaml.{Key, Loaded, Dump}
use fvdb_core.TokenPolicy.Violations.{Violation, git_missing, git_failed, leaked}
use fvdb_core.TokenPolicy.Jobs.{report_if}
use fvdb_core.TokenPolicy.Workflow.{splitlines, check_workflow_file}

-- What running `git grep` comes to: there is no git, a return code other than 0 and 1, or its output.
pub data Grep : Type 0 where
  not_found failed : Grep
  listed : Text → Grep

-- `line.split(":", 1)[1]`
abbrev pub after_colon : Text → Result Text
after_colon [] = raise index_error
after_colon (c ∷ s) = if c == b':' then ok s else after_colon s

-- `ALLOWED_PATH_PREFIXES`
unfoldable pub is_allowed_path : Text → Bool
is_allowed_path rel =
    starts_with rel (codes ".github/workflows/") || starts_with rel (codes ".github/scripts/")

-- The path of a line, with or without a commit before it.
abbrev pub path_of : Bool → Text → Result Text
path_of has_ref line = if has_ref then after_colon line else ok line

abbrev pub check_path : Bool → Text → Result (List Violation)
check_path has_ref [] = ok []
check_path has_ref (c ∷ s) = do
  rel ← path_of has_ref (c ∷ s)
  ok (report_if (not (is_allowed_path rel)) (leaked rel))

unfoldable pub check_paths : Bool → List Text → Result (List Violation)
check_paths has_ref [] = ok []
check_paths has_ref (line ∷ lines) = do
  found ← check_path has_ref (strip line)
  rest ← check_paths has_ref lines
  ok (found ++ rest)

-- `check_no_leaks_outside_workflows`
unfoldable pub check_no_leaks : Bool → Grep → Result (List Violation)
check_no_leaks has_ref not_found = ok (git_missing ∷ [])
check_no_leaks has_ref failed = ok (git_failed ∷ [])
check_no_leaks has_ref (listed stdout) = check_paths has_ref (splitlines stdout)

abbrev pub exit_code : List Violation → ℕ
exit_code [] = 0
exit_code (v ∷ vs) = 1

module _ (D : Dump) (orders : List Key → Bool) (is_workflow : Text → Bool)
    (load : Text → Result (Option Loaded)) where
  -- The loop over the files
  unfoldable pub check_files : List Text → Result (List Violation)
  check_files [] = ok []
  check_files (text ∷ texts) = do
    found ← check_workflow_file D orders is_workflow load text
    rest ← check_files texts
    ok (found ++ rest)

  -- `main`, of the texts of the directory's workflows, where it is a directory: the exit code
  unfoldable pub main : Option (List Text) → Bool → Grep → Result ℕ
  main none has_ref grep = ok 1
  main (some texts) has_ref grep = do
    found ← check_files texts
    leaks ← check_no_leaks has_ref grep
    ok (exit_code (found ++ leaks))
