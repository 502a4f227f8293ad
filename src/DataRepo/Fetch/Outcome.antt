-- ===== src/DataRepo/Fetch/Outcome.antt =====
-- What a run does that no other process interferes with: the cache that the code promises.
use fvdb_core.Prelude.{
  ℕ, ◌+◌, ◌≡◌, refl, sym, ap, ◌∙◌, true, false, Option, none, some, List, [], ◌∷◌, ◌++◌,
  if◌then◌else◌, Bool-cases, inl, inr, All,
}
use fvdb_core.Prelude.Results.{Result, ok, raise, value_error, ◌>>=◌, >>=-eq-ok}
use fvdb_core.DataRepo.Text.{Text, same, same_iff, is_space}
use fvdb_core.DataRepo.Tree.{Node, file, directory, Entries, empty, current_revision}
use fvdb_core.DataRepo.Snapshot.{TarFile, extract_all, extract_snapshot}
use fvdb_core.DataRepo.Snapshot.Extract.{strip_top_level-revision}
use fvdb_core.DataRepo.Fetch.{
  World, Interference, fetch_revision, check_destination, fetch_snapshot, finally_unstage, proceed,
  install, renew_unless, download_and_replace, clear_destination, is_current, is_unmarked,
}

-- The abstract contract: the destination is a cache of one snapshot.
pub data Decision : Type 0 where
  reuse refuse renew : Decision

abbrev pub decide_marked : Option Text → Text → Option Node → Decision
decide_marked (some revision) sha stands = if same revision sha then reuse else renew
decide_marked none sha none = renew
decide_marked none sha (some there) = refuse

abbrev pub decide : Option Node → Text → Decision
decide stands sha = decide_marked (current_revision stands) sha stands

-- What is deleted to make room.
abbrev pub removed : Option Node → List Node
removed none = []
removed (some there) = there ∷ []

module _ (T : TarFile) (download : Text → Result T.Archive) (root : List Text) where
  abbrev pub alone : Interference
  alone moment stands = stands

  -- The snapshot of a revision, downloaded and extracted.
  abbrev pub snapshot : Text → Result Entries
  snapshot sha = download sha >>= λ archive. extract_snapshot T root archive sha

  abbrev pub renewed : Result Entries → World → Result (Unit {0}) × World
  renewed (ok es) w = (
    ok tt,
    record w {
      destination = some (directory es);
      staging = none;
      downloads = w.downloads + 1;
      deleted = removed w.destination ++ w.deleted;
    },
  )
  renewed (raise e) w = (raise e, record w { staging = none; downloads = w.downloads + 1 })

  abbrev pub contract : Decision → Text → World → Result (Unit {0}) × World
  contract reuse sha w = (ok tt, w)
  contract refuse sha w = (raise value_error, w)
  contract renew sha w = renewed (snapshot sha) w

  file-unmarked : (text : Text) → is_unmarked (current_revision (some (file text))) ≡ true
  unfolding current_revision
  file-unmarked text = refl

  -- A destination that a run may clear: free, or a snapshot.
  abbrev IsClearable : Option Node → Type 0
  IsClearable none = Unit
  IsClearable (some there) = is_unmarked (current_revision (some there)) ≡ false

  clear_destination-alone :
      (d : Option Node) (s : Option Entries) (n : ℕ) (l : List Node)
      → IsClearable d
      → clear_destination T download root alone
          (record { destination = d; staging = s; downloads = n; deleted = l })
        ≡ (
          ok tt,
          record { destination = none; staging = s; downloads = n; deleted = removed d ++ l },
        )
  unfolding clear_destination
  clear_destination-alone none s n l h = refl
  clear_destination-alone (some (file text)) s n l h = cc (file-unmarked text, h)
  clear_destination-alone (some (directory es)) s n l h = rw h refl

  installed-alone :
      (r : Result Entries) (w : World)
      → IsClearable w.destination
      → finally_unstage
          (proceed r (install T download root alone))
          (record w { staging = some empty; downloads = w.downloads + 1 })
        ≡ renewed r w
  installed-alone (raise e) w h = refl
  installed-alone (ok es) w h =
      rw (clear_destination-alone w.destination (some es) (w.downloads + 1) w.deleted h) refl

  fetch_snapshot-alone :
      (r : Result T.Archive) (sha : Text) (w : World)
      → download sha ≡ r
      → IsClearable w.destination
      → fetch_snapshot T download root alone sha w
        ≡ renewed (r >>= λ archive. extract_snapshot T root archive sha) w
  unfolding fetch_snapshot download_and_replace
  fetch_snapshot-alone (raise x) sha w hd h = rw hd refl
  fetch_snapshot-alone (ok a) sha w hd h =
      rw hd (installed-alone (extract_snapshot T root a sha) w h)

  marked-IsClearable :
      (d : Option Node) (revision : Text) → current_revision d ≡ some revision → IsClearable d
  marked-IsClearable none revision e = tt
  marked-IsClearable (some there) revision e = rw e refl

  decided :
      (o : Option Text) (d : Option Node) (s : Option Entries) (n : ℕ) (l : List Node) (sha : Text)
      → current_revision d ≡ o
      → renew_unless T download root alone
          (is_current o sha)
          o
          sha
          (record { destination = d; staging = s; downloads = n; deleted = l })
        ≡ contract
            (decide_marked o sha d)
            sha
            (record { destination = d; staging = s; downloads = n; deleted = l })
  unfolding check_destination
  decided none none s n l sha e = fetch_snapshot-alone (download sha) sha _ refl tt
  decided none (some there) s n l sha e = refl
  decided (some revision) d s n l sha e = elim (Bool-cases (same revision sha)) [
    | inl equal ↦ rw equal refl
    | inr other ↦ rw other (
        fetch_snapshot-alone (download sha) sha
          (record { destination = d; staging = s; downloads = n; deleted = l }) refl
          (marked-IsClearable d revision e))
  ]

  -- A run that is alone keeps the contract of a cache: it leaves a snapshot of the revision alone,
  -- refuses to touch what is no snapshot, and else puts the extracted download in place of what was
  -- there, or, where download or extraction fails, raises with the destination as it was. It leaves no
  -- staging directory behind.
  pub fetch_revision-contract :
      (sha : Text) (w : World)
      → fetch_revision T download root alone sha w ≡ contract (decide w.destination sha) sha w
  unfolding fetch_revision
  fetch_revision-contract sha w =
      decided (current_revision w.destination) w.destination w.staging w.downloads w.deleted sha
        refl

  extracted-revision :
      (r : Result T.Archive) (es : Entries) (sha : Text)
      → All (λ c. is_space c ≡ false) sha
      → (r >>= λ archive. extract_snapshot T root archive sha) ≡ ok es
      → current_revision (some (directory es)) ≡ some sha
  unfolding extract_snapshot
  extracted-revision (raise x) es sha h e = cc
  extracted-revision (ok a) es sha h e =
      let (extracted, _, e1) = >>=-eq-ok (extract_all T root a) _ e in
      strip_top_level-revision extracted es sha h e1

  renewed-current :
      (r : Result Entries) (sha : Text) (w : World)
      → All (λ c. is_space c ≡ false) sha
      → snapshot sha ≡ r
      → (renewed r w).0 ≡ ok tt
      → current_revision (renewed r w).1.destination ≡ some sha
  renewed-current (raise x) sha w h es e = cc
  renewed-current (ok es) sha w h same_es e = extracted-revision (download sha) es sha h same_es

  contract-current :
      (o : Option Text) (d : Option Node) (sha : Text) (w : World)
      → All (λ c. is_space c ≡ false) sha
      → current_revision w.destination ≡ o
      → (contract (decide_marked o sha d) sha w).0 ≡ ok tt
      → current_revision (contract (decide_marked o sha d) sha w).1.destination ≡ some sha
  contract-current none none sha w h eo e = renewed-current (snapshot sha) sha w h refl e
  contract-current none (some there) sha w h eo e = cc
  contract-current (some revision) d sha w h eo e = elim (Bool-cases (same revision sha)) [
    | inl equal ↦ rw equal (eo ∙ ap some ((same_iff revision sha).0 equal))
    | inr other ↦ rw other (renewed-current (snapshot sha) sha w h refl (rw other at e))
  ]

  current-reused :
      (sha : Text) (w : World)
      → current_revision w.destination ≡ some sha
      → fetch_revision T download root alone sha w ≡ (ok tt, w)
  current-reused sha w h =
      fetch_revision-contract sha w ∙ rw h (rw ((same_iff sha sha).1 refl) refl)

  -- The cache works: of a revision with no blank in it, a run that succeeds makes every later run free
  -- for as long as nothing else touches the destination, with no download and no change.
  pub fetch_revision-twice :
      (sha : Text) (w : World)
      → All (λ c. is_space c ≡ false) sha
      → (fetch_revision T download root alone sha w).0 ≡ ok tt
      → fetch_revision T download root alone sha (fetch_revision T download root alone sha w).1
        ≡ (ok tt, (fetch_revision T download root alone sha w).1)
  fetch_revision-twice sha w h e =
      let kept = fetch_revision-contract sha w in
      current-reused sha (fetch_revision T download root alone sha w).1 (
        ap (λ (q : Result (Unit {0}) × World). current_revision q.1.destination) kept
        ∙ contract-current (current_revision w.destination) w.destination sha w h refl
            (sym (ap (λ (q : Result (Unit {0}) × World). q.0) kept) ∙ e))
