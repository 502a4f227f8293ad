-- ===== src/DataRepo/Fetch.antt =====
-- `fetch_data_repo` of fvdb/utils/_data_repo.py, with what other processes do to the destination
-- between its accesses as a parameter.
pub mod Outcome
pub mod Deletion
use fvdb_core.Prelude.{
  ℕ, ◌+◌, ◌≡◌, Bool, true, false, Option, none, some, List, [], ◌∷◌, ◌++◌, if◌then◌else◌,
}
use fvdb_core.Prelude.Results.{Result, ok, raise, value_error, os_error}
use fvdb_core.DataRepo.Text.{Text, same}
use fvdb_core.DataRepo.Tree.{Node, file, directory, Entries, empty, entry, current_revision}
use fvdb_core.DataRepo.Snapshot.{TarFile, extract_snapshot}
use fvdb_core.DataRepo.Names.{Installation, local_repo_path, resolve_revision}

-- What stands at the destination, the staging directory of this run, the downloads it has made, and
-- what it has deleted at the destination or written over, the last first.
pub record World : Type 0 where
  pub destination : Option Node
  pub staging : Option Entries
  pub downloads : ℕ
  pub deleted : List Node

-- The moments at which another process may have changed the destination.
pub data Moment : Type 0 where
  before_exists before_recheck before_marker before_remove before_replace : Moment

-- What the others make of the destination.
abbrev pub Interference : Type 0
Interference = Moment → Option Node → Option Node

abbrev pub Action : Type 0 → Type 0
Action A = World → Result A × World

abbrev pub proceed : {A B : Type 0} → Result A → (A → Action B) → Action B
proceed (ok a) f w = f a w
proceed (raise e) f w = (raise e, w)

infixl 5 ◌>>=◌ ◌>>◌
abbrev pub ◌>>=◌ : {A B : Type 0} → Action A → (A → Action B) → Action B
◌>>=◌ m f w = let (r, w') = m w in proceed r f w'

abbrev pub ◌>>◌ : {B : Type 0} → Action (Unit {0}) → Action B → Action B
m >> k = m >>= λ _. k

abbrev pub return : {A : Type 0} → A → Action A
return a w = (ok a, w)

abbrev pub lift : {A : Type 0} → Result A → Action A
lift r w = (r, w)

abbrev pub fail_if : Bool → Action (Unit {0})
fail_if test w = (if test then raise value_error else ok tt, w)

-- `repo_path.exists()`
abbrev pub present : Option Node → Bool
present none = false
present (some node) = true

abbrev pub read_destination : Action (Option Node)
read_destination w = (ok w.destination, w)

-- `current == sha`
abbrev pub is_current : Option Text → Text → Bool
is_current none sha = false
is_current (some revision) sha = same revision sha

abbrev pub is_unmarked : Option Text → Bool
is_unmarked none = true
is_unmarked (some revision) = false

abbrev pub stage : Option Entries → Action (Unit {0})
stage es w = (ok tt, record w { staging = es })

-- `shutil.rmtree(repo_path)`, which raises where there is no directory.
abbrev pub remove_tree : Option Node → World → Result (Unit {0}) × World
remove_tree (some (directory es)) w =
    (ok tt, record w { destination = none; deleted = directory es ∷ w.deleted })
remove_tree (some (file text)) w = (raise os_error, w)
remove_tree none w = (raise os_error, w)

-- `os.replace(extract_path, repo_path)`: a directory is renamed to a free name or over an empty one.
abbrev pub replace_with : Entries → Option Node → World → Result (Unit {0}) × World
replace_with es none w = (ok tt, record w { destination = some (directory es) })
replace_with es (some (directory empty)) w =
    (ok tt, record w { destination = some (directory es); deleted = directory empty ∷ w.deleted })
replace_with es (some (directory (entry name node rest))) w = (raise os_error, w)
replace_with es (some (file text)) w = (raise os_error, w)

abbrev pub rmtree : Action (Unit {0})
rmtree w = remove_tree w.destination w

abbrev pub replace : Entries → Action (Unit {0})
replace es w = replace_with es w.destination w

-- `try: body` `finally: shutil.rmtree(staging_path, ignore_errors=True)`
abbrev pub finally_unstage : {A : Type 0} → Action A → Action A
finally_unstage body w = let (r, w') = body w in (r, record w' { staging = none })

-- `T` reads archives, `download` answers with the archive of a revision or raises, and `root` is where
-- the archive is extracted.
module _ (T : TarFile) (download : Text → Result T.Archive) (root : List Text)
    (others : Interference) where
  abbrev pub meanwhile : Moment → Action (Unit {0})
  meanwhile moment w = (ok tt, record w { destination = others moment w.destination })

  abbrev pub request : Text → Action T.Archive
  request sha w = (download sha, record w { downloads = w.downloads + 1 })

  abbrev pub remove_snapshot : Bool → Action (Unit {0})
  remove_snapshot false = return tt
  remove_snapshot true = do
    meanwhile before_marker
    node ← read_destination
    fail_if (is_unmarked (current_revision node))
    meanwhile before_remove
    rmtree

  -- What makes room at the destination.
  unfoldable pub clear_destination : Action (Unit {0})
  clear_destination = do
    meanwhile before_recheck
    node ← read_destination
    remove_snapshot (present node)

  abbrev pub install : Entries → Action (Unit {0})
  install es = do stage (some es); clear_destination; meanwhile before_replace; replace es

  -- The body of the `try`.
  unfoldable pub download_and_replace : Text → Action (Unit {0})
  download_and_replace sha = do
    archive ← request sha
    es ← lift (extract_snapshot T root archive sha)
    install es

  -- The part that makes the staging directory and fills it.
  unfoldable pub fetch_snapshot : Text → Action (Unit {0})
  fetch_snapshot sha = do stage (some empty); finally_unstage (download_and_replace sha)

  -- The refusal to replace what is not a snapshot.
  unfoldable pub check_destination : Option Text → Action (Unit {0})
  check_destination none = do
    meanwhile before_exists
    node ← read_destination
    fail_if (present node)
  check_destination (some revision) = return tt

  abbrev pub renew_unless : Bool → Option Text → Text → Action (Unit {0})
  renew_unless true current sha = return tt
  renew_unless false current sha = do check_destination current; fetch_snapshot sha

  -- `fetch_data_repo`, once the revision is known
  unfoldable pub fetch_revision : Text → Action (Unit {0})
  fetch_revision sha = do
    node ← read_destination
    renew_unless (is_current (current_revision node) sha) (current_revision node) sha

  -- `fetch_data_repo`; `ask` answers what commit a branch or tag is at.
  unfoldable pub fetch_data_repo :
      Installation → (Text → Result Text) → Text → Text → Action (List Text)
  fetch_data_repo i ask revision repo_name = do
    path ← lift (local_repo_path i repo_name)
    sha ← lift (resolve_revision ask revision)
    fetch_revision sha
    return path
