-- ===== src/Convolution/Coverage/Cache.antt =====
-- `_CoverageReportCache` of fvdb/convolution_plan.py: a lazily computed report that the threads of a
-- process share. Each read or write of a field of the cache, and each step of its lock, is one atomic
-- step; the scheduler is a relation. A thread makes one call of `get`.
pub mod Invariant
pub mod Once
pub mod Safety
pub mod Progress
use fvdb_core.Prelude.{ℕ, ◌+◌, ◌≡◌, Bool, true, false, Option, none, some}
use mathlib.Core.Logic.{ite}
use native.Mathlib.Decide.{ℕ_discrete}

-- Where a thread stands in `get(swapped)`, with the local variables that are live there.
pub data Pc (R : Type 0) : Type 0 where
  start : Bool → Pc R  -- before `report = self._report`
  want_report : Bool → Pc R  -- before the first `with self._lock`
  locked_report : Bool → Pc R  -- in it, before the second read of `self._report`
  compute_report : Bool → Pc R  -- in it, before `_coverage_report`
  store_report : Bool → Option R → Pc R  -- in it, before `self._report = report`
  unlock_report : Bool → Option R → Pc R  -- at the end of the block
  after : Bool → Option R → Pc R  -- before `if not swapped or report is None`
  read_swapped : R → Pc R  -- before `swapped_report = self._swapped_report`
  want_swapped : R → Pc R  -- before the second `with self._lock`
  locked_swapped : R → Pc R  -- in it, before the second read of `self._swapped_report`
  store_swapped : R → R → Pc R  -- in it, before `self._swapped_report = swapped_report`
  unlock_swapped : R → R → Pc R  -- at the end of the block
  done : Bool → Option R → Pc R  -- after the return, with the value returned

-- The fields of the cache, the thread that holds its lock, and how often `_coverage_report` has run.
pub record Cache (R : Type 0) : Type 0 where
  pub report : Option R
  pub swapped_report : Option R
  pub lock : Option ℕ
  pub computed : ℕ

abbrev pub update {ℓ} : {A : Type ℓ} → (ℕ → A) → ℕ → A → ℕ → A
update pcs thread next j = ite (ℕ_discrete thread j) next (pcs j)

-- `compute` is what `_coverage_report` returns for the cache's backend and grids, `swap` is
-- `_swap_coverage_report`.
module _ {R : Type 0} (compute : Option R) (swap : R → R) where
  -- A step of thread `i`.
  pub data Move (i : ℕ) (c : Cache R) : Pc R → Cache R → Pc R → Type 0 where
    hit : {w : Bool} {r : R} → c.report ≡ some r → Move i c (start w) c (after w (some r))
    miss : {w : Bool} → c.report ≡ none → Move i c (start w) c (want_report w)
    acquire :
        {w : Bool}
        → c.lock ≡ none
        → Move i c (want_report w) (record c { lock = some i }) (locked_report w)
    found :
        {w : Bool} {r : R}
        → c.report ≡ some r
        → Move i c (locked_report w) c (unlock_report w (some r))
    absent : {w : Bool} → c.report ≡ none → Move i c (locked_report w) c (compute_report w)
    run :
        {w : Bool}
        → Move i c
            (compute_report w)
            (record c { computed = c.computed + 1 })
            (store_report w compute)
    store :
        {w : Bool} {o : Option R}
        → Move i c (store_report w o) (record c { report = o }) (unlock_report w o)
    release :
        {w : Bool} {o : Option R}
        → Move i c (unlock_report w o) (record c { lock = none }) (after w o)
    plain : {o : Option R} → Move i c (after false o) c (done false o)
    nothing : Move i c (after true none) c (done true none)
    exchange : {r : R} → Move i c (after true (some r)) c (read_swapped r)
    swapped_hit :
        {r s : R} → c.swapped_report ≡ some s → Move i c (read_swapped r) c (done true (some s))
    swapped_miss : {r : R} → c.swapped_report ≡ none → Move i c (read_swapped r) c (want_swapped r)
    swapped_acquire :
        {r : R}
        → c.lock ≡ none
        → Move i c (want_swapped r) (record c { lock = some i }) (locked_swapped r)
    swapped_found :
        {r s : R} → c.swapped_report ≡ some s → Move i c (locked_swapped r) c (unlock_swapped r s)
    swapped_absent :
        {r : R} → c.swapped_report ≡ none → Move i c (locked_swapped r) c (store_swapped r (swap r))
    swapped_store :
        {r s : R}
        → Move i c (store_swapped r s) (record c { swapped_report = some s }) (unlock_swapped r s)
    swapped_release :
        {r s : R} → Move i c (unlock_swapped r s) (record c { lock = none }) (done true (some s))

  -- A process: the cache and its threads. Any thread may take the next step.
  pub record Process : Type 0 where
    pub cache : Cache R
    pub pc : ℕ → Pc R

  pub data Step (s : Process) : Process → Type 0 where
    pick :
        (i : ℕ) {c : Cache R} {p : Pc R}
        → Move i s.cache (s.pc i) c p
        → Step s (record { cache = c; pc = update s.pc i p })

  abbrev pub new_cache : Cache R
  new_cache = record { report = none; swapped_report = none; lock = none; computed = 0 }

  -- Thread `i` calls `get(wants i)` on a new cache.
  pub data Reach (wants : ℕ → Bool) : Process → Type 0 where
    begin : Reach wants (record { cache = new_cache; pc = λ i. start (wants i) })
    later : {s t : Process} → Reach wants s → Step s t → Reach wants t
