-- ===== src/Convolution/Coverage/Cache/Safety.antt =====
-- What every schedule of the threads guarantees: right answers, one thread at a time in a block, and
-- one computation of the report.
use fvdb_core.Prelude.{ℕ, ◌≤◌, ◌≡◌, ◌≢◌, Bool, true, Option, none, ◌∙◌, sym, subst}
use mathlib.Core.Option.{some-injective}
use fvdb_core.Convolution.Coverage.Cache.{Pc, done, Process, Reach}
use fvdb_core.Convolution.Coverage.Cache.Invariant.{critical, IsLocal, answer, Reach-Inv}
use fvdb_core.Convolution.Coverage.Cache.Once.{Reach-Once}

module _ {R : Type 0} (compute : Option R) (swap : R → R) where
  done-answer :
      (w v : Bool) (o : Option R) (p : Pc R)
      → p ≡ done v o
      → IsLocal compute swap w p
      → o ≡ answer compute swap w
  done-answer w v o p e l = (subst (IsLocal compute swap w) e l).1

  -- Whatever the schedule, a call `get(swapped)` that has returned has returned the cache's report,
  -- exchanged if the call asked for that.
  pub get-answer :
      {wants : ℕ → Bool} {s : Process compute swap} (i : ℕ) (v : Bool) (o : Option R)
      → Reach compute swap wants s
      → s.pc i ≡ done v o
      → o ≡ answer compute swap (wants i)
  get-answer {wants} {s} i v o r e =
      done-answer (wants i) v o (s.pc i) e ((Reach-Inv compute swap r).locals i)

  -- Two threads are never in blocks under the lock together.
  pub mutual_exclusion :
      {wants : ℕ → Bool} {s : Process compute swap} (i j : ℕ)
      → Reach compute swap wants s
      → critical (s.pc i) ≡ true
      → critical (s.pc j) ≡ true
      → i ≡ j
  mutual_exclusion i j r hi hj =
      let inv = Reach-Inv compute swap r in
      some-injective i j (sym (inv.holder i hi) ∙ inv.holder j hj)

  -- Where a report exists, all calls together compute it at most once.
  pub computed-le_one :
      {wants : ℕ → Bool} {s : Process compute swap}
      → compute ≢ none
      → Reach compute swap wants s
      → s.cache.computed ≤ 1
  computed-le_one computes r = (Reach-Once compute swap computes r).few
