-- ===== src/Examples/Threads.antt =====
-- Runs of the coverage report's cache: thread 0 asks for the exchanged report, on its own.
use fvdb_core.Prelude.{ℕ, ◌+◌, ◌≡◌, ◌≢◌, ◌≤◌, ◌<◌, refl, ap, true, Option, none, some}
use native.Mathlib.Decide.{ℕ_discrete}
use fvdb_core.Convolution.Coverage.Cache.{
  Pc, compute_report, done, Cache, Move, miss, acquire, absent, run, store, release, exchange,
  swapped_miss, swapped_acquire, swapped_absent, swapped_store, swapped_release, Process, Reach,
  begin, later, pick,
}
use fvdb_core.Convolution.Coverage.Cache.Invariant.{critical, answer}
use fvdb_core.Convolution.Coverage.Cache.Safety.{get-answer, mutual_exclusion, computed-le_one}
use fvdb_core.Convolution.Coverage.Cache.Progress.{remaining, finished, CanMove, get_progress}

-- The report is a number, which the exchange increments.
abbrev Toy : Process (some 5) (λ n. n + 1) → Type 0
Toy = Reach (some 5) (λ n. n + 1) (λ i. true)

-- Thread 0 is in the first block.
inside : (s : Process (some 5) (λ n. n + 1)) × Toy s × (s.pc 0 ≡ compute_report true)
unfolding ℕ_discrete
inside = (
  _,
  later (later (later begin (pick 0 (miss refl))) (pick 0 (acquire refl))) (pick 0 (absent refl)),
  refl,
)

-- Thread 0 has returned.
returned : (s : Process (some 5) (λ n. n + 1)) × Toy s × (s.pc 0 ≡ done true (some 6))
unfolding ℕ_discrete
returned =
    let held =
      later (later (later begin (pick 0 (miss refl))) (pick 0 (acquire refl)))
        (pick 0 (absent refl)) in
    let stored = later (later (later held (pick 0 run)) (pick 0 store)) (pick 0 release) in
    let asked =
      later (later (later stored (pick 0 exchange)) (pick 0 (swapped_miss refl)))
        (pick 0 (swapped_acquire refl)) in
    (
      _,
      later (later (later asked (pick 0 (swapped_absent refl))) (pick 0 swapped_store))
          (pick 0 swapped_release),
      refl,
    )

abbrev report : Option ℕ
report = some 5

some-ne_none : report ≢ none
some-ne_none e = cc

get-answer_example : some 6 ≡ answer (some 5) (λ n. n + 1) true
get-answer_example = get-answer (some 5) (λ n. n + 1) 0 true (some 6) returned.1 returned.2

computed-le_one_example : returned.0.cache.computed ≤ 1
computed-le_one_example = computed-le_one (some 5) (λ n. n + 1) some-ne_none returned.1

abbrev thread : ℕ
thread = 0

mutual_exclusion_example : thread ≡ thread
mutual_exclusion_example =
    mutual_exclusion (some 5) (λ n. n + 1) thread thread inside.1 (ap critical inside.2)
      (ap critical inside.2)

get_progress_example :
    (j : ℕ) × CanMove (some 5) (λ n. n + 1) j inside.0.cache (inside.0.pc j)
    × ((c : Cache ℕ) (p : Pc ℕ)
        → Move (some 5) (λ n. n + 1) j inside.0.cache (inside.0.pc j) c p
        → remaining p < remaining (inside.0.pc j))
get_progress_example =
    get_progress (some 5) (λ n. n + 1) 0 inside.1 (ap (finished (some 5) (λ n. n + 1)) inside.2)
