-- ===== src/DataRepo/Snapshot.antt =====
-- `_checked_members` and `_extract_snapshot` of fvdb/utils/_data_repo.py. Reading an archive and
-- writing its members to a new directory are the standard library's, and a parameter.
pub mod Extract
use fvdb_core.Prelude.{
  ℕ, ◌≡◌, refl, Bool, true, false, not, ◌&&◌, ◌||◌, Option, none, some, List, [], ◌∷◌, ◌++◌,
  if◌then◌else◌, ◌==◌, length, map,
}
use fvdb_core.Prelude.Results.{Result, ok, raise, value_error, os_error, raise_if, ◌>>=◌, ◌>>◌}
use fvdb_core.DataRepo.Text.{Text, codes, same}
use fvdb_core.DataRepo.Tree.{
  Node, file, directory, Entries, empty, entry, lookup, insert, remove, revision_marker, move_onto,
}

pub data MemberType : Type 0 where
  regular_file plain_directory other_type : MemberType

-- `tarfile.TarInfo`: the type, the name by its components, and the mode.
pub record Member : Type 0 where
  pub kind : MemberType
  pub absolute : Bool
  pub parts : List Text
  pub mode : ℕ

abbrev pub is_accepted_type : MemberType → Bool
is_accepted_type regular_file = true
is_accepted_type plain_directory = true
is_accepted_type other_type = false

abbrev pub parent_of : List Text → List Text
parent_of [] = []
parent_of (p ∷ ps) = ps

abbrev pub enter : List Text → Text → List Text
enter above part =
    if same part (codes "..")
    then parent_of above
    else if same part (codes ".")
    then above
    else part ∷ above

-- `Path.resolve`, on the components of a path from the last to the first; nothing on the way is a
-- link, since no link is extracted.
unfoldable pub resolve : List Text → List Text → List Text
resolve above [] = above
resolve above (part ∷ parts) = resolve (enter above part) parts

abbrev pub same_path : List Text → List Text → Bool
same_path [] [] = true
same_path [] (q ∷ qs) = false
same_path (p ∷ ps) [] = false
same_path (p ∷ ps) (q ∷ qs) = same p q && same_path ps qs

-- `target == root or root in target.parents`
unfoldable pub is_within : List Text → List Text → Bool
is_within root [] = same_path [] root
is_within root (p ∷ ps) = same_path (p ∷ ps) root || is_within root ps

abbrev pub target_of : List Text → Member → List Text
target_of root m = resolve (if m.absolute then [] else root) m.parts

abbrev pub safe_mode : MemberType → ℕ
safe_mode plain_directory = 493
safe_mode _ = 420

-- `_checked_members`, below the directory `root`
unfoldable pub checked_members : List Text → List Member → Result (List Member)
checked_members root [] = ok []
checked_members root (m ∷ ms) = do
  raise_if (not (is_accepted_type m.kind)) value_error
  raise_if (not (is_within root (target_of root m))) value_error
  rest ← checked_members root ms
  ok (record m { mode = safe_mode m.kind } ∷ rest)

-- `tarfile`: the members of an archive, what the "data" filter extracts, where there are filters, and
-- what is extracted of given members.
pub record TarFile : Type 1 where
  pub Archive : Type 0
  pub members : Archive → List Member
  pub extract_filtered : Archive → Option (Result Entries)
  pub extract_members : Archive → List Member → Result Entries

abbrev pub directories : Entries → List (Text × Entries)
directories empty = []
directories (entry name (file text) es) = directories es
directories (entry name (directory inner) es) = (name, inner) ∷ directories es

-- The loop over `top_level.iterdir()`. `top` stands in `es` while its entries are moved out of it.
unfoldable pub move_children : Entries → Entries → Result Entries
move_children empty es = ok es
move_children (entry name node rest) es = do
  moved ← move_onto (lookup name es) name node es
  move_children rest moved

-- `(dest_path / _REVISION_MARKER).write_text(sha + "\n")`, where no directory has that name.
abbrev pub write_marker : Text → Option Node → Entries → Result Entries
write_marker sha (some (directory inner)) es = raise os_error
write_marker sha _ es = ok (insert revision_marker (file (sha ++ (10 ∷ []))) es)

-- The one top-level directory of what was extracted.
abbrev pub only_directory : List (Text × Entries) → Result (Text × Entries)
only_directory (top ∷ []) = ok top
only_directory _ = raise value_error

-- What `_extract_snapshot` does with the extracted entries.
unfoldable pub strip_top_level : Entries → Text → Result Entries
strip_top_level extracted sha = do
  top ← only_directory (directories extracted)
  moved ← move_children top.1 extracted
  let stripped = remove top.0 moved
  write_marker sha (lookup revision_marker stripped) stripped

module _ (T : TarFile) where
  open T use {Archive, members, extract_filtered, extract_members}

  -- `tar.extractall`, with the filter or, where there is none, of the members checked by hand.
  abbrev pub extract_all : List Text → Archive → Result Entries
  extract_all root archive = elim (extract_filtered archive) [
    | some extracted ↦ extracted
    | none ↦ do checked ← checked_members root (members archive); extract_members archive checked
  ]

  -- `_extract_snapshot`
  unfoldable pub extract_snapshot : List Text → Archive → Text → Result Entries
  extract_snapshot root archive sha = do
    extracted ← extract_all root archive
    strip_top_level extracted sha
