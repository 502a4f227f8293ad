-- ===== src/DataRepo/Tree.antt =====
-- Files and directories, and what fvdb/utils/_data_repo.py reads and moves of them. The content of a
-- file is a text: a marker that is not UTF-8, whose reading raises, is left out.
use fvdb_core.Prelude.{◌≡◌, refl, Option, none, some, if◌then◌else◌, arith}
use fvdb_core.Prelude.Results.{Result, ok, raise, os_error}
use fvdb_core.DataRepo.Text.{Text, codes, same, same_iff, strip}

mutual
  pub data Node : Type 0 where
    file : Text → Node
    directory : Entries → Node

  pub data Entries : Type 0 where
    empty : Entries
    entry : Text → Node → Entries → Entries

unfoldable pub lookup : Text → Entries → Option Node
lookup name empty = none
lookup name (entry other node es) = if same other name then some node else lookup name es

-- Writes a name, in place of what has it.
unfoldable pub insert : Text → Node → Entries → Entries
insert name node empty = entry name node empty
insert name node (entry other old es) =
    if same other name then entry name node es else entry other old (insert name node es)

unfoldable pub remove : Text → Entries → Entries
remove name empty = empty
remove name (entry other node es) =
    if same other name then es else entry other node (remove name es)

-- `_REVISION_MARKER`
abbrev pub revision_marker : Text
revision_marker = codes ".fvdb-data-revision"

-- `marker.read_text().strip()`, or nothing where reading is an `OSError`.
abbrev pub marker_text : Option Node → Option Text
marker_text (some (file text)) = some (strip text)
marker_text (some (directory es)) = none
marker_text none = none

-- `_current_revision`
unfoldable pub current_revision : Option Node → Option Text
current_revision (some (directory es)) = marker_text (lookup revision_marker es)
current_revision (some (file text)) = none
current_revision none = none

-- `shutil.move` of one entry onto what has its name: a file gives way to a file, a directory to
-- nothing, since the entry would go inside of it, where the name is taken.
abbrev pub move_onto : Option Node → Text → Node → Entries → Result Entries
move_onto none name node es = ok (insert name node es)
move_onto (some (file old)) name (file text) es = ok (insert name (file text) es)
move_onto (some (file old)) name (directory inner) es = raise os_error
move_onto (some (directory inner)) name node es = raise os_error

pub lookup-insert :
    (k j : Text) (v : Node) (es : Entries)
    → lookup j (insert k v es) ≡ (if same k j then some v else lookup j es)
unfolding lookup insert
lookup-insert k j v empty = refl
lookup-insert k j v (entry i w es) =
    ground (arith, same_iff k j, same_iff i k, same_iff i j, lookup-insert k j v es)
