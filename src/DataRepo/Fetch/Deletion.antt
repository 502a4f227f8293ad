-- ===== src/DataRepo/Fetch/Deletion.antt =====
-- What a run deletes, whatever others put where nothing stands.
use fvdb_core.Prelude.{
  ◌+◌, ◌≡◌, refl, Bool, true, false, Option, none, some, List, if◌then◌else◌, Bool-cases, ◌⊎◌, inl,
  inr, All,
}
use fvdb_core.Prelude.Results.{Result, ok, raise, value_error}
use fvdb_core.DataRepo.Text.{Text}
use fvdb_core.DataRepo.Tree.{Node, file, directory, Entries, empty, entry, current_revision}
use fvdb_core.DataRepo.Snapshot.{TarFile, extract_snapshot}
use fvdb_core.DataRepo.Fetch.{
  World, Moment, before_exists, before_recheck, before_marker, before_remove, before_replace,
  Interference, Action, proceed, remove_tree, replace_with, fetch_revision, check_destination,
  fetch_snapshot, download_and_replace, clear_destination, is_current, is_unmarked, present,
  remove_snapshot, install, renew_unless,
}

-- A node that may be deleted: a snapshot, which has the marker, or an empty directory.
abbrev pub IsOurs : Node → Type 0
IsOurs node = (is_unmarked (current_revision (some node)) ≡ false) ⊎ (node ≡ directory empty)

abbrev pub IsHarmless : World → Type 0
IsHarmless w = All IsOurs w.deleted

-- Others put things where nothing stands, and change nothing that stands.
abbrev pub IsQuiet : Interference → Type 0
IsQuiet others = (moment : Moment) (node : Node) → others moment (some node) ≡ some node

replace_with-IsHarmless :
    (es : Entries) (d : Option Node) (w : World) → IsHarmless w → IsHarmless (replace_with es d w).1
replace_with-IsHarmless es none w h = h
replace_with-IsHarmless es (some (directory empty)) w h = (inr refl, h)
replace_with-IsHarmless es (some (directory (entry name node rest))) w h = h
replace_with-IsHarmless es (some (file text)) w h = h

remove_tree-IsHarmless :
    (d : Option Node) (w : World)
    → is_unmarked (current_revision d) ≡ false
    → IsHarmless w
    → IsHarmless (remove_tree d w).1
remove_tree-IsHarmless none w m h = h
remove_tree-IsHarmless (some (file text)) w m h = h
remove_tree-IsHarmless (some (directory es)) w m h = (inl m, h)

unmarked_none : is_unmarked (current_revision none) ≡ true
unfolding current_revision
unmarked_none = refl

-- A step, and one that follows it.
proceed-IsHarmless :
    {A B : Type 0} (r : Result A) (f : A → Action B) (w : World)
    → IsHarmless w
    → ((a : A) (v : World) → IsHarmless v → IsHarmless (f a v).1)
    → IsHarmless (proceed r f w).1
proceed-IsHarmless (ok a) f w h k = k a w h
proceed-IsHarmless (raise e) f w h k = h

module _ (T : TarFile) (download : Text → Result T.Archive) (root : List Text)
    (others : Interference) (quiet : IsQuiet others) where
  -- What has the marker still stands when it is removed.
  marked_stays :
      (moment : Moment) (d : Option Node)
      → is_unmarked (current_revision d) ≡ false
      → others moment d ≡ d
  marked_stays moment none m = absurd (cc (unmarked_none, m))
  marked_stays moment (some node) m = quiet moment node

  remove_snapshot-IsHarmless :
      (found : Bool) (w : World)
      → IsHarmless w
      → IsHarmless (remove_snapshot T download root others found w).1
  remove_snapshot-IsHarmless false w h = h
  remove_snapshot-IsHarmless true w h =
      let d : Option Node = others before_marker w.destination in
      elim (Bool-cases (is_unmarked (current_revision d))) [
        | inl unmarked ↦ rw unmarked h
        | inr marked ↦
            rw marked
              (rw (marked_stays before_remove d marked) (remove_tree-IsHarmless d _ marked h))
      ]

  clear_destination-IsHarmless :
      (w : World) → IsHarmless w → IsHarmless (clear_destination T download root others w).1
  unfolding clear_destination
  clear_destination-IsHarmless w h =
      remove_snapshot-IsHarmless (present (others before_recheck w.destination))
        (record w { destination = others before_recheck w.destination }) h

  install-IsHarmless :
      (es : Entries) (w : World) → IsHarmless w → IsHarmless (install T download root others es w).1
  install-IsHarmless es w h =
      let cleared = clear_destination T download root others (record w { staging = some es }) in
      proceed-IsHarmless cleared.0 _ cleared.1
        (clear_destination-IsHarmless (record w { staging = some es }) h)
        (λ _ v hv. replace_with-IsHarmless es (others before_replace v.destination) _ hv)

  fetch_snapshot-IsHarmless :
      (sha : Text) (w : World)
      → IsHarmless w
      → IsHarmless (fetch_snapshot T download root others sha w).1
  unfolding fetch_snapshot download_and_replace
  fetch_snapshot-IsHarmless sha w h =
      proceed-IsHarmless (download sha) _
        (record w { staging = some empty; downloads = w.downloads + 1 }) h
        (λ archive v hv.
          proceed-IsHarmless (extract_snapshot T root archive sha) (install T download root others)
            v hv install-IsHarmless)

  renew_unless-IsHarmless :
      (current : Bool) (o : Option Text) (sha : Text) (w : World)
      → IsHarmless w
      → IsHarmless (renew_unless T download root others current o sha w).1
  unfolding check_destination
  renew_unless-IsHarmless true o sha w h = h
  renew_unless-IsHarmless false (some revision) sha w h = fetch_snapshot-IsHarmless sha w h
  renew_unless-IsHarmless false none sha w h =
      proceed-IsHarmless
        (if present (others before_exists w.destination) then raise value_error else ok tt) _ _ h
        (λ _ v hv. fetch_snapshot-IsHarmless sha v hv)

  -- Whatever is downloaded, and whatever others put at the destination while nothing stands there, a
  -- run deletes snapshots and empty directories only: what it has deleted had the marker of a snapshot,
  -- or held nothing.
  pub fetch_revision-IsHarmless :
      (sha : Text) (w : World)
      → IsHarmless w
      → IsHarmless (fetch_revision T download root others sha w).1
  unfolding fetch_revision
  fetch_revision-IsHarmless sha w h =
      renew_unless-IsHarmless (is_current (current_revision w.destination) sha)
        (current_revision w.destination) sha w h
