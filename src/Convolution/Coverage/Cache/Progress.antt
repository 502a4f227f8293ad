-- ===== src/Convolution/Coverage/Cache/Progress.antt =====
-- While a call has not returned, some thread can move, and a move brings its thread nearer to its
-- return.
use fvdb_core.Prelude.{
  ℕ, ◌<◌, ◌≡◌, refl, Bool, true, false, Option, some, none, arith, ◌⊎◌, inl, inr, Option-cases,
}
use fvdb_core.Convolution.Coverage.Cache.{
  Pc, start, want_report, locked_report, compute_report, store_report, unlock_report, after,
  read_swapped, want_swapped, locked_swapped, store_swapped, unlock_swapped, done, Cache, Move, hit,
  miss, acquire, found, absent, run, store, release, plain, nothing, exchange, swapped_hit,
  swapped_miss, swapped_acquire, swapped_found, swapped_absent, swapped_store, swapped_release,
  Process, Reach,
}
use fvdb_core.Convolution.Coverage.Cache.Invariant.{critical, Reach-Inv}

-- A bound on the moves that a thread has before it.
abbrev pub remaining : {R : Type 0} → Pc R → ℕ
remaining (start _) = 13
remaining (want_report _) = 12
remaining (locked_report _) = 11
remaining (compute_report _) = 10
remaining (store_report _ _) = 9
remaining (unlock_report _ _) = 8
remaining (after _ _) = 7
remaining (read_swapped _) = 6
remaining (want_swapped _) = 5
remaining (locked_swapped _) = 4
remaining (store_swapped _ _) = 3
remaining (unlock_swapped _ _) = 2
remaining (done _ _) = 0

module _ {R : Type 0} (compute : Option R) (swap : R → R) where
  -- Thread `i` has a move.
  abbrev pub CanMove : ℕ → Cache R → Pc R → Type 0
  CanMove i c p = (c' : Cache R) × (p' : Pc R) × Move compute swap i c p c' p'

  pub Move-remaining :
      {i : ℕ} {c c' : Cache R} {p p' : Pc R}
      → Move compute swap i c p c' p'
      → remaining p' < remaining p
  Move-remaining (hit e) = omega arith
  Move-remaining mv = omega arith

  abbrev pub finished : Pc R → Bool
  finished (done _ _) = true
  finished _ = false

  -- Outside the two waits for the lock a thread always has a move; at a wait it has one if the lock
  -- is free.
  moves :
      (i : ℕ) (c : Cache R) (p : Pc R)
      → finished p ≡ false
      → ((critical p ≡ true) ⊎ (c.lock ≡ none))
      → CanMove i c p
  moves i c (start w) h free = elim (Option-cases c.report) [
    | inl e ↦ (_, _, miss e)
    | inr (r, e) ↦ (_, _, hit e)
  ]
  moves i c (want_report w) h (inl inside) = cc
  moves i c (want_report w) h (inr e) = (_, _, acquire e)
  moves i c (locked_report w) h free = elim (Option-cases c.report) [
    | inl e ↦ (_, _, absent e)
    | inr (r, e) ↦ (_, _, found e)
  ]
  moves i c (compute_report w) h free = (_, _, run)
  moves i c (store_report w o) h free = (_, _, store)
  moves i c (unlock_report w o) h free = (_, _, release)
  moves i c (after false o) h free = (_, _, plain)
  moves i c (after true none) h free = (_, _, nothing)
  moves i c (after true (some r)) h free = (_, _, exchange)
  moves i c (read_swapped r) h free = elim (Option-cases c.swapped_report) [
    | inl e ↦ (_, _, swapped_miss e)
    | inr (s, e) ↦ (_, _, swapped_hit e)
  ]
  moves i c (want_swapped r) h (inl inside) = cc
  moves i c (want_swapped r) h (inr e) = (_, _, swapped_acquire e)
  moves i c (locked_swapped r) h free = elim (Option-cases c.swapped_report) [
    | inl e ↦ (_, _, swapped_absent e)
    | inr (s, e) ↦ (_, _, swapped_found e)
  ]
  moves i c (store_swapped r s) h free = (_, _, swapped_store)
  moves i c (unlock_swapped r s) h free = (_, _, swapped_release)
  moves i c (done w o) h free = cc

  critical-finished : (p : Pc R) → critical p ≡ true → finished p ≡ false
  critical-finished (done w o) h = cc
  critical-finished p h = refl

  -- While a call has not returned, some thread has a move, and every move of that thread leaves it
  -- a smaller bound on its remaining moves.
  pub get_progress :
      {wants : ℕ → Bool} {s : Process compute swap} (i : ℕ)
      → Reach compute swap wants s
      → finished (s.pc i) ≡ false
      → (j : ℕ) × CanMove j s.cache (s.pc j)
        × ((c : Cache R) (p : Pc R)
            → Move compute swap j s.cache (s.pc j) c p
            → remaining p < remaining (s.pc j))
  get_progress {s} i r h = elim (Option-cases s.cache.lock) [
    | inl free ↦ (i, moves i s.cache (s.pc i) h (inr free), λ c p mv. Move-remaining mv)
    | inr (j, held) ↦
        let inside : critical (s.pc j) ≡ true = (Reach-Inv compute swap r).owner j held in
        (
          j,
          moves j s.cache (s.pc j) (critical-finished (s.pc j) inside) (inl inside),
          λ c p mv. Move-remaining mv,
        )
  ]
