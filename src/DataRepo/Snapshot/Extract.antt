-- ===== src/DataRepo/Snapshot/Extract.antt =====
-- What a snapshot holds once it is extracted.
use fvdb_core.Prelude.{
  ◌≡◌, ◌≢◌, refl, sym, ap, ◌∙◌, false, Option, none, some, [], ◌∷◌, ◌++◌, All, if◌then◌else◌, arith,
}
use fvdb_core.Prelude.Results.{ok, >>=-eq-ok, ok-injective}
use fvdb_core.DataRepo.Text.{Text, same, same_iff, is_space, strip-newline}
use fvdb_core.DataRepo.Tree.{
  Node, file, directory, Entries, empty, entry, lookup, insert, remove, lookup-insert,
  revision_marker, current_revision,
}
use fvdb_core.DataRepo.Snapshot.{
  directories, only_directory, move_children, write_marker, strip_top_level,
}

abbrev pub append : Entries → Entries → Entries
append empty fs = fs
append (entry name node es) fs = entry name node (append es fs)

-- The names of the second entries are new: none is among the first, and none comes twice.
abbrev pub AreNew : Entries → Entries → Type 0
AreNew es empty = Unit
AreNew es (entry name node rest) =
    (lookup name es ≡ none) × AreNew (append es (entry name node empty)) rest

insert-new :
    (name : Text) (node : Node) (es : Entries)
    → lookup name es ≡ none
    → insert name node es ≡ append es (entry name node empty)
unfolding insert lookup
insert-new name node empty h = refl
insert-new name node (entry other old es) h = ground (arith, insert-new name node es)

append_assoc :
    (es : Entries) (name : Text) (node : Node) (rest : Entries)
    → append (append es (entry name node empty)) rest ≡ append es (entry name node rest)
append_assoc empty name node rest = refl
append_assoc (entry other old es) name node rest =
    ap (entry other old) (append_assoc es name node rest)

append-empty : (es : Entries) → append es empty ≡ es
append-empty empty = refl
append-empty (entry name node es) = ap (entry name node) (append-empty es)

move_children-new :
    (inner es : Entries) → AreNew es inner → move_children inner es ≡ ok (append es inner)
unfolding move_children
move_children-new empty es h = ap ok (sym (append-empty es))
move_children-new (entry name node rest) es h = rw h.0 (
    ap (move_children rest) (insert-new name node es h.0)
    ∙ move_children-new rest (append es (entry name node empty)) h.1
    ∙ ap ok (append_assoc es name node rest))

remove-first : (top : Text) (node : Node) (es : Entries) → remove top (entry top node es) ≡ es
unfolding remove
remove-first top node es = rw ((same_iff top top).1 refl)

-- Of an archive whose one directory has entries of new names, no directory among them named like the
-- marker, a snapshot holds exactly these entries, and the marker with the revision.
pub strip_top_level_lem :
    (top : Text) (inner : Entries) (sha : Text)
    → AreNew (entry top (directory inner) empty) inner
    → ((es : Entries) → lookup revision_marker inner ≢ some (directory es))
    → (es : Entries) × (strip_top_level (entry top (directory inner) empty) sha ≡ ok es)
      × ((name : Text)
          → lookup name es ≡ (
              if same revision_marker name
              then some (file (sha ++ (10 ∷ [])))
              else lookup name inner))
unfolding strip_top_level
strip_top_level_lem top inner sha h plain = (
  insert revision_marker (file (sha ++ (10 ∷ []))) inner,
  rw (move_children-new inner (entry top (directory inner) empty) h)
      (rw (remove-first top (directory inner) inner) written),
  λ name. lookup-insert revision_marker name (file (sha ++ (10 ∷ []))) inner,
)
  where
    cases :
        (o : Option Node)
        → ((es : Entries) → o ≢ some (directory es))
        → write_marker sha o inner ≡ ok (insert revision_marker (file (sha ++ (10 ∷ []))) inner)
    cases none n = refl
    cases (some (file text)) n = refl
    cases (some (directory es)) n = absurd (n es refl)

    written :
        write_marker sha (lookup revision_marker inner) inner
        ≡ ok (insert revision_marker (file (sha ++ (10 ∷ []))) inner)
    written = cases (lookup revision_marker inner) plain

write_marker-eq_ok :
    (sha : Text) (o : Option Node) (es result : Entries)
    → write_marker sha o es ≡ ok result
    → result ≡ insert revision_marker (file (sha ++ (10 ∷ []))) es
write_marker-eq_ok sha none es result e = sym (ok-injective _ result e)
write_marker-eq_ok sha (some (file text)) es result e = sym (ok-injective _ result e)
write_marker-eq_ok sha (some (directory inner)) es result e = cc

-- Whatever was extracted, a snapshot records the revision that it was extracted for.
pub strip_top_level-revision :
    (extracted es : Entries) (sha : Text)
    → All (λ c. is_space c ≡ false) sha
    → strip_top_level extracted sha ≡ ok es
    → current_revision (some (directory es)) ≡ some sha
unfolding strip_top_level current_revision
strip_top_level-revision extracted es sha h e =
    let (top, _, e1) = >>=-eq-ok (only_directory (directories extracted)) _ e in
    let (moved, _, e2) = >>=-eq-ok (move_children top.1 extracted) _ e1 in
    let stripped : Entries = remove top.0 moved in
    let made : es ≡ insert revision_marker (file (sha ++ (10 ∷ []))) stripped =
      write_marker-eq_ok sha (lookup revision_marker stripped) stripped es e2 in
    let found : lookup revision_marker es ≡ some (file (sha ++ (10 ∷ []))) =
      ap (lookup revision_marker) made
      ∙ lookup-insert revision_marker revision_marker (file (sha ++ (10 ∷ []))) stripped in
    rw found (ap some (strip-newline sha h))
