-- ===== src/Convolution/Coverage/Cache/Invariant.antt =====
-- What holds of the cache and of each thread's locals in every reachable state.
use fvdb_core.Prelude.{
  ℕ, ◌≡◌, refl, subst, ◌⊎◌, inl, inr, Bool, true, false, Option, none, some, arith,
}
use mathlib.Core.Option
use mathlib.Core.Logic.{if_pos, if_neg}
use native.Mathlib.Decide.{ℕ_discrete}
use fvdb_core.Convolution.Coverage.Cache.{
  Pc, start, want_report, locked_report, compute_report, store_report, unlock_report, after,
  read_swapped, want_swapped, locked_swapped, store_swapped, unlock_swapped, done, Cache, update,
  Move, hit, acquire, found, store, plain, nothing, swapped_hit, swapped_acquire, swapped_found,
  swapped_store, swapped_release, Process, pick, Reach, begin, later,
}

-- A thread inside one of the two blocks under the lock.
abbrev pub critical : {R : Type 0} → Pc R → Bool
critical (locked_report _) = true
critical (compute_report _) = true
critical (store_report _ _) = true
critical (unlock_report _ _) = true
critical (locked_swapped _) = true
critical (store_swapped _ _) = true
critical (unlock_swapped _ _) = true
critical _ = false

module _ {R : Type 0} (compute : Option R) (swap : R → R) where
  -- What `get` is to return.
  abbrev pub answer : Bool → Option R
  answer true = Option.map swap compute
  answer false = compute

  abbrev pub IsLocal : Bool → Pc R → Type 0
  IsLocal w (start v) = v ≡ w
  IsLocal w (want_report v) = v ≡ w
  IsLocal w (locked_report v) = v ≡ w
  IsLocal w (compute_report v) = v ≡ w
  IsLocal w (store_report v o) = (v ≡ w) × (o ≡ compute)
  IsLocal w (unlock_report v o) = (v ≡ w) × (o ≡ compute)
  IsLocal w (after v o) = (v ≡ w) × (o ≡ compute)
  IsLocal w (read_swapped r) = (w ≡ true) × (compute ≡ some r)
  IsLocal w (want_swapped r) = (w ≡ true) × (compute ≡ some r)
  IsLocal w (locked_swapped r) = (w ≡ true) × (compute ≡ some r)
  IsLocal w (store_swapped r s) = (w ≡ true) × (compute ≡ some r) × (s ≡ swap r)
  IsLocal w (unlock_swapped r s) = (w ≡ true) × (compute ≡ some r) × (s ≡ swap r)
  IsLocal w (done v o) = (v ≡ w) × (o ≡ answer w)

  pub record Inv (wants : ℕ → Bool) (c : Cache R) (pc : ℕ → Pc R) : Type 0 where
    pub stored : (c.report ≡ none) ⊎ (c.report ≡ compute)
    pub exchanged : (c.swapped_report ≡ none) ⊎ (c.swapped_report ≡ Option.map swap compute)
    pub locals : (i : ℕ) → IsLocal (wants i) (pc i)
    pub holder : (i : ℕ) → critical (pc i) ≡ true → c.lock ≡ some i
    pub owner : (i : ℕ) → c.lock ≡ some i → critical (pc i) ≡ true

  module _ {wants : ℕ → Bool} {c : Cache R} {pc : ℕ → Pc R} (inv : Inv wants c pc) (i : ℕ) where
    open inv use {stored, exchanged, locals, holder, owner}

    Move-stored :
        {c' : Cache R} {p p' : Pc R}
        → Move compute swap i c p c' p'
        → IsLocal (wants i) p
        → (c'.report ≡ none) ⊎ (c'.report ≡ compute)
    Move-stored store l = inr l.1
    Move-stored mv l = stored

    Move-exchanged :
        {c' : Cache R} {p p' : Pc R}
        → Move compute swap i c p c' p'
        → IsLocal (wants i) p
        → (c'.swapped_report ≡ none) ⊎ (c'.swapped_report ≡ Option.map swap compute)
    Move-exchanged swapped_store l = inr (rw (l.1, l.2))
    Move-exchanged mv l = exchanged

    Move-IsLocal :
        {c' : Cache R} {p p' : Pc R}
        → Move compute swap i c p c' p'
        → IsLocal (wants i) p
        → IsLocal (wants i) p'
    Move-IsLocal (hit e) l = ground arith
    Move-IsLocal (found e) l = ground arith
    Move-IsLocal nothing l = ground arith
    Move-IsLocal plain l = ground arith
    Move-IsLocal (swapped_hit e) l = ground arith
    Move-IsLocal (swapped_found e) l = ground arith
    Move-IsLocal swapped_release l = ground arith
    Move-IsLocal mv l = ground arith

    -- The lock goes with the threads in a block: to the mover that enters, from the one that leaves.
    Move-holder :
        {c' : Cache R} {p p' : Pc R}
        → Move compute swap i c p c' p'
        → pc i ≡ p
        → (j : ℕ) → critical (update pc i p' j) ≡ true
        → c'.lock ≡ some j
    Move-holder (acquire free) e j h = ground (arith, holder j, holder i)
    Move-holder (swapped_acquire free) e j h = ground (arith, holder j, holder i)
    Move-holder mv e j h = ground (arith, holder j, holder i)

    Move-owner :
        {c' : Cache R} {p p' : Pc R}
        → Move compute swap i c p c' p'
        → pc i ≡ p
        → (j : ℕ) → c'.lock ≡ some j
        → critical (update pc i p' j) ≡ true
    Move-owner (acquire free) e j h = ground (arith, owner j, owner i)
    Move-owner (swapped_acquire free) e j h = ground (arith, owner j, owner i)
    Move-owner mv e j h = ground (arith, owner j, owner i)

    update-IsLocal :
        (p' : Pc R) → IsLocal (wants i) p' → (j : ℕ) → IsLocal (wants j) (update pc i p' j)
    update-IsLocal p' l j = elim (ℕ_discrete i j) [
      | yes same ↦ rw (if_pos _ same) (subst (λ k. IsLocal (wants k) p') same l)
      | no other ↦ rw (if_neg _ other) (locals j)
    ]

    pub Move-Inv :
        {c' : Cache R} {p' : Pc R}
        → Move compute swap i c (pc i) c' p'
        → Inv wants c' (update pc i p')
    Move-Inv {p'} mv = record {
      stored = Move-stored mv (locals i);
      exchanged = Move-exchanged mv (locals i);
      locals = update-IsLocal p' (Move-IsLocal mv (locals i));
      holder = Move-holder mv refl;
      owner = Move-owner mv refl;
    }

  -- Every reachable state has the invariant.
  pub Reach-Inv :
      {wants : ℕ → Bool} {s : Process compute swap}
      → Reach compute swap wants s
      → Inv wants s.cache s.pc
  Reach-Inv begin = record {
    stored = inl refl;
    exchanged = inl refl;
    locals = λ i. refl;
    holder = λ i h. cc;
    owner = λ i h. cc;
  }
  Reach-Inv (later r (pick i mv)) = Move-Inv (Reach-Inv r) i mv
