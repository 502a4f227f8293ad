-- ===== src/Convolution/Coverage/Cache/Once.antt =====
-- How often the report is computed: the invariant that counts the calls of `_coverage_report`.
use fvdb_core.Prelude.{
  ℕ, ◌≤◌, ◌≡◌, ◌≢◌, refl, sym, ◌∙◌, Bool, true, false, Option, none, some, arith,
}
use mathlib.Core.Logic.{if_pos, if_neg}
use native.Mathlib.Decide.{ℕ_discrete}
use fvdb_core.Convolution.Coverage.Cache.{
  Pc, start, want_report, locked_report, compute_report, store_report, after, read_swapped,
  want_swapped, done, Cache, update, Move, hit, acquire, found, absent, run, store, release,
  exchange, swapped_miss, swapped_acquire, swapped_found, swapped_absent, swapped_store,
  swapped_release, Process, pick, Reach, begin, later,
}
use fvdb_core.Convolution.Coverage.Cache.Invariant.{critical, IsLocal, Inv, Reach-Inv}

-- What a thread's place says of the report and of the count.
abbrev At : {R : Type 0} → Cache R → Pc R → Type 0
At c (start _) = Unit
At c (want_report _) = Unit
At c (locked_report _) = c.report ≡ none → c.computed ≡ 0
At c (compute_report _) = (c.report ≡ none) × (c.computed ≡ 0)
At c (store_report _ _) = Unit
At c (done _ _) = Unit
At c _ = c.report ≢ none

At-outside :
    {R : Type 0} (c c' : Cache R) (q : Pc R)
    → critical q ≡ false
    → (c.report ≢ none → c'.report ≢ none)
    → At c q
    → At c' q
At-outside c c' (after _ _) h k a = k a
At-outside c c' (read_swapped _) h k a = k a
At-outside c c' (want_swapped _) h k a = k a
At-outside c c' (start _) h k a = tt
At-outside c c' (want_report _) h k a = tt
At-outside c c' (done _ _) h k a = tt
At-outside c c' q h k a = absurd (ground arith)

At-same :
    {R : Type 0} (c c' : Cache R) (q : Pc R)
    → c'.report ≡ c.report
    → c'.computed ≡ c.computed
    → At c q
    → At c' q
At-same c c' (locked_report _) r n a = rw (r, n) a
At-same c c' (compute_report _) r n a = rw (r, n) a
At-same c c' (start _) r n a = tt
At-same c c' (want_report _) r n a = tt
At-same c c' (store_report _ _) r n a = tt
At-same c c' (done _ _) r n a = tt
At-same c c' q r n a = rw r a

pub record Once {R : Type 0} (c : Cache R) (pc : ℕ → Pc R) : Type 0 where
  pub few : c.computed ≤ 1
  pub idle : c.lock ≡ none → c.report ≡ none → c.computed ≡ 0
  pub at : (i : ℕ) → At c (pc i)

module _ {R : Type 0} (compute : Option R) (swap : R → R) (computes : compute ≢ none) where
  module _ {wants : ℕ → Bool} {c : Cache R} {pc : ℕ → Pc R} (inv : Inv compute swap wants c pc)
      (once : Once c pc) (i : ℕ) where
    open inv use {locals, holder, owner}
    open once use {few, idle, at}

    Move-few :
        {c' : Cache R} {p p' : Pc R} → Move compute swap i c p c' p' → At c p → c'.computed ≤ 1
    Move-few run a = omega arith
    Move-few mv a = few

    Move-idle :
        {c' : Cache R} {p p' : Pc R}
        → Move compute swap i c p c' p'
        → At c p
        → (critical p ≡ true → c.lock ≡ some i)
        → c'.lock ≡ none
        → c'.report ≡ none
        → c'.computed ≡ 0
    Move-idle (acquire free) a held l r = cc
    Move-idle (swapped_acquire free) a held l r = cc
    Move-idle release a held l r = absurd (a r)
    Move-idle swapped_release a held l r = absurd (a r)
    Move-idle run a held l r = cc (held refl)
    Move-idle store a held l r = cc (held refl)
    Move-idle mv a held l r = idle l r

    Move-self :
        {c' : Cache R} {p p' : Pc R}
        → Move compute swap i c p c' p'
        → At c p
        → IsLocal compute swap (wants i) p
        → At c' p'
    Move-self (hit e) a l = λ n. cc
    Move-self (found e) a l = λ n. cc
    Move-self (absent e) a l = (e, a e)
    Move-self (acquire free) a l = idle free
    Move-self store a l = λ n. computes (sym l.1 ∙ n)
    Move-self release a l = a
    Move-self exchange a l = a
    Move-self (swapped_miss e) a l = a
    Move-self (swapped_acquire free) a l = a
    Move-self (swapped_found e) a l = a
    Move-self (swapped_absent e) a l = a
    Move-self swapped_store a l = a
    Move-self mv a l = tt

    -- Another thread is outside the blocks while the mover is in one.
    outside : (j : ℕ) → i ≢ j → critical (pc i) ≡ true → critical (pc j) ≡ false
    outside j ne h = ground (arith, holder i, holder j)

    Move-other :
        {c' : Cache R} {p p' : Pc R}
        → Move compute swap i c p c' p'
        → IsLocal compute swap (wants i) p
        → (q : Pc R) → (critical p ≡ true → critical q ≡ false)
        → At c q
        → At c' q
    Move-other {c'} run l q out a = At-outside c c' q (out refl) (λ k. k) a
    Move-other {c'} store l q out a = At-outside c c' q (out refl) (λ k n. computes (sym l.1 ∙ n)) a
    Move-other {c'} mv l q out a = At-same c c' q refl refl a

    pub Move-Once :
        {c' : Cache R} {p' : Pc R} → Move compute swap i c (pc i) c' p' → Once c' (update pc i p')
    Move-Once {c'} {p'} mv = record {
      few = Move-few mv (at i);
      idle = Move-idle mv (at i) (holder i);
      at = λ j. elim (ℕ_discrete i j) [
        | yes same ↦ rw (if_pos _ same) (Move-self mv (at i) (locals i))
        | no other ↦ rw (if_neg _ other) (Move-other mv (locals i) (pc j) (outside j other) (at j))
      ];
    }

  -- Every reachable state has the invariant.
  pub Reach-Once :
      {wants : ℕ → Bool} {s : Process compute swap} → Reach compute swap wants s → Once s.cache s.pc
  Reach-Once begin = record { few = omega arith; idle = λ l r. refl; at = λ i. tt }
  Reach-Once (later r (pick i mv)) = Move-Once (Reach-Inv compute swap r) (Reach-Once r) i mv
