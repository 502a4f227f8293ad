-- ===== src/TokenPolicy/Jobs/Reports.antt =====
-- When the checks of a job report nothing: lemmas on reports and on selected fields.
use fvdb_core.Prelude.{
  ◌≡◌, ◌≢◌, refl, ap, ◌∙◌, Bool, true, false, not, ◌&&◌, ◌||◌, List, [], ◌∷◌, ◌++◌, All, arith,
  Bool-cases, inl, inr, ◌↔◌,
}
use fvdb_core.Prelude.Results.{Result, ok, >>=-eq-ok, ok-injective}
use fvdb_core.DataRepo.Text.{Text, same, same_iff}
use fvdb_core.TokenPolicy.Yaml.{
  Key, named, true_key, other_key, Value, Fields, end, field, has_name,
}
use fvdb_core.TokenPolicy.Violations.{Violation}
use fvdb_core.TokenPolicy.Jobs.{report_if, select, is_none, select_list, report_each}

abbrev pub AllFields : (Key → Value → Type 0) → Fields → Type 0
AllFields P end = Unit
AllFields P (field k v fs) = P k v × AllFields P fs

pub ++-nil_iff : (xs ys : List Violation) → ((xs ++ ys) ≡ []) ↔ ((xs ≡ []) × (ys ≡ []))
++-nil_iff [] ys = (λ h. (refl, h), λ h. h.1)
++-nil_iff (x ∷ xs) ys = (λ h. absurd (cc h), λ h. absurd (cc (h.0)))

pub report_if-nil_iff : (b : Bool) (v : Violation) → (report_if b v ≡ []) ↔ (b ≡ false)
report_if-nil_iff true v = (λ h. absurd (cc h), λ h. absurd (cc h))
report_if-nil_iff false v = (λ h. refl, λ h. refl)

pub two_reports-nil_iff :
    (a b : Bool) (v w : Violation)
    → ((report_if a v ++ report_if b w) ≡ []) ↔ ((a ≡ false) × (b ≡ false))
two_reports-nil_iff true b v w = (λ h. absurd (cc h), λ h. absurd (cc (h.0)))
two_reports-nil_iff false true v w = (λ h. absurd (cc h), λ h. absurd (cc (h.1)))
two_reports-nil_iff false false v w = (λ h. (refl, refl), λ h. refl)

pub or_false : (a b : Bool) → (a || b) ≡ false → (a ≡ false) × (b ≡ false)
or_false a b h = ground arith

pub same-false_iff : (s t : Text) → (same s t ≡ false) ↔ (s ≢ t)
same-false_iff s t = ground (arith, same_iff s t)

pub not-same-false_iff : (s t : Text) → (not (same s t) ≡ false) ↔ (s ≡ t)
not-same-false_iff s t = ground (arith, same_iff s t)

pub has_name_iff : (k : Key) (name : Text) → (has_name k name ≡ true) ↔ (k ≡ named name)
has_name_iff (named k) name =
    (λ h. ap named ((same_iff k name).0 h), λ h. (same_iff k name).1 (cc h))
has_name_iff true_key name = (λ h. absurd (cc h), λ h. absurd (cc h))
has_name_iff other_key name = (λ h. absurd (cc h), λ h. absurd (cc h))

pub report_each-nil_iff :
    (check : Fields → Result (List Violation)) (ss : List Fields)
    → (report_each check ss ≡ ok []) ↔ All (λ s. check s ≡ ok []) ss
unfolding report_each
report_each-nil_iff check [] = (λ h. tt, λ h. refl)
report_each-nil_iff check (s ∷ ss) = (
  λ h.
      let (found, e, h1) = >>=-eq-ok (check s) _ h in
      let (rest, er, h2) = >>=-eq-ok (report_each check ss) _ h1 in
      let both = (++-nil_iff found rest).0 (ok-injective _ _ h2) in
      (e ∙ ap ok both.0, (report_each-nil_iff check ss).0 (er ∙ ap ok both.1)),
  λ h. rw h.0 (rw ((report_each-nil_iff check ss).1 h.1) refl),
)

pub AllFields-map :
    {P Q : Key → Value → Type 0} (fs : Fields)
    → ((k : Key) (v : Value) → P k v → Q k v)
    → AllFields P fs
    → AllFields Q fs
AllFields-map end f h = tt
AllFields-map (field k v fs) f h = (f k v h.0, AllFields-map fs f h.1)

pub is_none-end : (fs : Fields) → is_none fs ≡ true → fs ≡ end
is_none-end end h = refl
is_none-end (field k v fs) h = absurd (cc h)

-- Nothing is selected where no field passes the test.
pub select-end_iff :
    (p : Key → Value → Bool) (fs : Fields)
    → (select p fs ≡ end) ↔ AllFields (λ k v. p k v ≡ false) fs
unfolding select
select-end_iff p end = (λ h. tt, λ h. refl)
select-end_iff p (field k v fs) = elim (Bool-cases (p k v)) [
  | inl kept ↦ (λ h. absurd (cc (rw kept at h)), λ h. absurd (cc (kept, h.0)))
  | inr left ↦ (
    λ h. (left, (select-end_iff p fs).0 (rw left at h)),
    λ h. rw left ((select-end_iff p fs).1 h.1),
  )
]

-- A test that spares one name.
pub spared_iff :
    (k : Key) (name : Text) (b : Bool)
    → ((not (has_name k name) && b) ≡ false) ↔ (b ≡ true → k ≡ named name)
spared_iff k name false = (λ h e. absurd (cc e), λ h. ground arith)
spared_iff k name true =
    (λ h e. (has_name_iff k name).0 (ground arith), λ h. rw ((has_name_iff k name).1 (h refl)) refl)

pub All-map :
    {P Q : Fields → Type 0} (ss : List Fields) → ((s : Fields) → P s → Q s) → All P ss → All Q ss
All-map [] f h = tt
All-map (s ∷ ss) f h = (f s h.0, All-map ss f h.1)

pub select_list-All_iff :
    (P : Fields → Type 0) (p : Fields → Bool) (ss : List Fields)
    → All P (select_list p ss) ↔ All (λ s. p s ≡ true → P s) ss
select_list-All_iff P p [] = (λ h. tt, λ h. tt)
select_list-All_iff P p (s ∷ ss) = elim (Bool-cases (p s)) [
  | inl kept ↦
      let rest = select_list-All_iff P p ss in
      (
        λ h.
            let both : P s × All P (select_list p ss) = rw kept at h in
            (λ _. both.0, rest.0 both.1),
        λ h. rw kept ((h.0 kept, rest.1 h.1)),
      )
  | inr left ↦
      let rest = select_list-All_iff P p ss in
      (λ h. (λ e. absurd (cc (left, e)), rest.0 (rw left at h)), λ h. rw left (rest.1 h.1))
]

pub not-false : (b : Bool) → not b ≡ false → b ≡ true
not-false true h = refl
not-false false h = absurd (cc h)
