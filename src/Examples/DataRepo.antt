-- ===== src/Examples/DataRepo.antt =====
-- Tests of the data repository's model, and instances of its theorems.
use fvdb_core.Prelude.{
  ℕ, zero, suc, ◌≡◌, refl, ap, true, false, none, some, List, [], ◌∷◌, ◌++◌, All, if◌then◌else◌,
}
use fvdb_core.Prelude.Results.{Result, ok, raise, value_error}
use fvdb_core.DataRepo.Text.{Text, codes, same, is_space, strip, rstrip, lstrip}
use fvdb_core.DataRepo.Names.{
  matches_repo_name, matches_full_sha, IsComponent, matches_repo_name-IsComponent, resolve_revision,
}
use fvdb_core.DataRepo.Tree.{
  Node, file, directory, Entries, empty, entry, lookup, revision_marker, current_revision, insert,
  remove,
}
use fvdb_core.DataRepo.Snapshot.{
  TarFile, regular_file, checked_members, strip_top_level, extract_snapshot, resolve, is_within,
  move_children,
}
use fvdb_core.DataRepo.Snapshot.Extract.{strip_top_level_lem}
use fvdb_core.DataRepo.Fetch.{
  World, Interference, before_remove, fetch_revision, check_destination, fetch_snapshot,
  download_and_replace, clear_destination,
}
use fvdb_core.DataRepo.Fetch.Outcome.{
  decide, contract, alone, fetch_revision-contract, fetch_revision-twice,
}
use fvdb_core.DataRepo.Fetch.Deletion.{IsHarmless, fetch_revision-IsHarmless}

abbrev archives : TarFile
archives = record {
  Archive = Entries;
  members = λ a. [];
  extract_filtered = λ a. some (ok a);
  extract_members = λ a ms. ok a;
}

abbrev zeros : ℕ → Text
zeros zero = []
zeros (suc n) = b'0' ∷ zeros n

abbrev revision : Text
revision = zeros 40

abbrev readme : Entries
readme = entry (codes "README") (file (codes "data")) empty

abbrev upstream : Text → Result Entries
upstream sha = ok (entry (codes "fvdb-data") (directory readme) empty)

abbrev root : List Text
root = codes "tmp" ∷ []

abbrev fresh : World
fresh = record { destination = none; staging = none; downloads = 0; deleted = [] }

abbrev snapshot_of : Text → Node
snapshot_of sha = directory (insert revision_marker (file (sha ++ (10 ∷ []))) readme)

zeros_blank_free : (n : ℕ) → All (λ c. is_space c ≡ false) (zeros n)
unfolding is_space
zeros_blank_free zero = tt
zeros_blank_free (suc n) = (refl, zeros_blank_free n)

full_sha : matches_full_sha revision ≡ true
unfolding matches_full_sha
full_sha = refl

-- A revision with a newline at its end passes for a full one, but the marker never equals it.
full_sha_newline : matches_full_sha (revision ++ (10 ∷ [])) ≡ true
unfolding matches_full_sha
full_sha_newline = refl

newline_kept :
    (ask : Text → Result Text)
    → resolve_revision ask (revision ++ (10 ∷ [])) ≡ ok (revision ++ (10 ∷ []))
unfolding resolve_revision matches_full_sha
newline_kept ask = refl

dots_refused : matches_repo_name (codes "..") ≡ false
unfolding matches_repo_name
dots_refused = refl

matches_repo_name-IsComponent_example : IsComponent (codes "fvdb-data")
unfolding matches_repo_name
matches_repo_name-IsComponent_example = matches_repo_name-IsComponent (codes "fvdb-data") refl

escape_refused :
    checked_members root (
      record {
        kind = regular_file;
        absolute = false;
        parts = codes ".." ∷ codes "etc" ∷ [];
        mode = 511;
      }
      ∷ [])
    ≡ raise value_error
unfolding checked_members resolve is_within
escape_refused = refl

strip_top_level_lem_example :
    (es : Entries) × (strip_top_level (entry (codes "fvdb-data") (directory readme) empty) revision
      ≡ ok es)
    × ((name : Text)
        → lookup name es ≡ (
            if same revision_marker name
            then some (file (revision ++ (10 ∷ [])))
            else lookup name readme))
unfolding lookup
strip_top_level_lem_example =
    strip_top_level_lem (codes "fvdb-data") readme revision (refl, tt) (λ es h. cc h)

first_run :
    fetch_revision archives upstream root (alone archives upstream root) revision fresh
    ≡ (ok tt, record fresh { destination = some (snapshot_of revision); downloads = 1 })
unfolding fetch_revision check_destination fetch_snapshot download_and_replace clear_destination
    current_revision extract_snapshot strip_top_level move_children lookup remove insert
first_run = refl

fetch_revision-contract_example :
    fetch_revision archives upstream root (alone archives upstream root) revision fresh
    ≡ contract archives upstream root (decide none revision) revision fresh
fetch_revision-contract_example = fetch_revision-contract archives upstream root revision fresh

fetch_revision-twice_example :
    fetch_revision archives upstream root
      (alone archives upstream root)
      revision
      (fetch_revision archives upstream root (alone archives upstream root) revision fresh).1
    ≡ (
      ok tt,
      (fetch_revision archives upstream root (alone archives upstream root) revision fresh).1,
    )
fetch_revision-twice_example =
    fetch_revision-twice archives upstream root revision fresh (zeros_blank_free 40)
      (ap (λ q. q.0) first_run)

-- Another process that puts a directory of its own where the destination is free.
abbrev newcomer : Interference
newcomer moment none = some (directory readme)
newcomer moment (some node) = some node

fetch_revision-IsHarmless_example :
    IsHarmless (fetch_revision archives upstream root newcomer revision fresh).1
fetch_revision-IsHarmless_example =
    fetch_revision-IsHarmless archives upstream root newcomer (λ moment node. refl) revision fresh
      tt

-- The newcomer's directory stays, and the run is refused.
newcomer_refused :
    fetch_revision archives upstream root newcomer revision fresh
    ≡ (raise value_error, record fresh { destination = some (directory readme) })
unfolding fetch_revision check_destination current_revision lookup
newcomer_refused = refl

-- Another process that replaces the snapshot after its marker was read for the second time.
abbrev usurper : Interference
usurper before_remove stands = some (directory readme)
usurper _ stands = stands

-- What is deleted then is not a snapshot.
usurped :
    (fetch_revision archives upstream root usurper revision
      (record fresh { destination = some (snapshot_of (codes "old")) })).1.deleted
    ≡ directory readme ∷ []
unfolding fetch_revision check_destination fetch_snapshot download_and_replace clear_destination
    current_revision extract_snapshot strip_top_level lookup insert strip rstrip lstrip is_space
    move_children remove
usurped = refl
