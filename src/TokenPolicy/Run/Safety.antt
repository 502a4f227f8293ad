-- ===== src/TokenPolicy/Run/Safety.antt =====
-- What an exit code of 0 promises.
use fvdb_core.Prelude.{◌≡◌, Bool, true, [], ◌∷◌, All}
use fvdb_core.Prelude.Results.{ok}
use fvdb_core.DataRepo.Text.{Text, strip}
use fvdb_core.TokenPolicy.Workflow.{splitlines}
use fvdb_core.TokenPolicy.Run.{Grep, listed, path_of, is_allowed_path}

-- A line of what `git grep` lists is blank, or a path where the token may be named.
abbrev pub IsAllowedLine : Bool → Text → Type 0
IsAllowedLine has_ref [] = Unit
IsAllowedLine has_ref (c ∷ s) =
    (rel : Text) × (path_of has_ref (c ∷ s) ≡ ok rel) × (is_allowed_path rel ≡ true)

-- What `git grep` lists names the token only where it may stand.
abbrev pub IsContained : Bool → Grep → Type 0
IsContained has_ref grep =
    (stdout : Text) × (grep ≡ listed stdout)
    × All (λ line. IsAllowedLine has_ref (strip line)) (splitlines stdout)
