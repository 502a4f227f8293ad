-- ===== src/TokenPolicy/Jobs/Occurrences.antt =====
-- What the policy for jobs keeps the occurrences of the token's name to.
use fvdb_core.Prelude.{◌≡◌, subst, Bool, true, some, List, All, Bool-cases, ◌⊎◌, inl, inr}
use fvdb_core.Prelude.Results.{ok, type_error, attribute_error}
use fvdb_core.DataRepo.Text.{Text, codes}
use fvdb_core.TokenPolicy.Yaml.{
  Key, named, Value, mapping, Fields, end, field, token_name, get, Occurs, Dump,
}
use fvdb_core.TokenPolicy.Jobs.{
  allowed_action, iter_steps, text_or_empty, fields_or_empty, before_at, local_callee, select,
  forwarded, names_token, is_leftover,
}
use fvdb_core.TokenPolicy.Jobs.Reports.{AllFields, select-end_iff, All-map, AllFields-map}
use fvdb_core.TokenPolicy.Jobs.Steps.{IsRemote, IsRunnerStep}
use fvdb_core.TokenPolicy.Jobs.Compliance.{IsUnreported, IsForwarding}

-- A field that names the token, in its key or in its value.
abbrev pub OccursAt : Key → Value → Type 0
OccursAt k v = Occurs (mapping (field k v end))

-- A step of the runner's action, among whose inputs `github-token` alone names the token.
pub record IsKeptStep (step : Fields) : Type 0 where
  pub uses : Text
  pub is_uses : text_or_empty attribute_error (get (codes "uses") step) ≡ ok uses
  pub is_runner : before_at uses ≡ allowed_action
  pub inputs : Fields
  pub is_inputs : fields_or_empty (get (codes "with") step) ≡ ok inputs
  pub by_token_input : AllFields (λ k v. OccursAt k v → k ≡ named (codes "github-token")) inputs

select-AllFields :
    (P : Key → Value → Type 0) (p : Key → Value → Bool) (fs : Fields)
    → AllFields P (select p fs)
    → AllFields (λ k v. p k v ≡ true → P k v) fs
unfolding select
select-AllFields P p end h = tt
select-AllFields P p (field k v fs) h = elim (Bool-cases (p k v)) [
  | inl kept ↦ let both = rw kept at h in (λ _. both.0, select-AllFields P p fs both.1)
  | inr left ↦ (λ e. absurd (cc (left, e)), select-AllFields P p fs (rw left at h))
]

module _ (D : Dump) (orders : List Key → Bool) (is_workflow : Text → Bool) where
  open D use {mentions, mentions_all}

  -- The job runs a workflow that stands beside its own.
  abbrev pub CallsWorkflow : Fields → Type 0
  CallsWorkflow job =
      (uses : Text) × (text_or_empty type_error (get (codes "uses") job) ≡ ok uses)
      × (callee : Text) × (local_callee uses ≡ some callee)
      × (is_workflow callee ≡ true)

  pub record IsKept (job : Fields) : Type 0 where
    pub handed_on :
        (secrets : Fields)
        → get (codes "secrets") job ≡ mapping secrets
        → AllFields (λ k v. OccursAt k v → (k ≡ named token_name) × CallsWorkflow job) secrets
    pub steps : List Fields
    pub is_steps : iter_steps (get (codes "steps") job) ≡ ok steps
    pub by_runner : All (λ s. Occurs (mapping s) → IsKeptStep s) steps
    pub remote : All IsRemote steps
    pub nothing_else : Occurs (mapping (select (is_leftover D orders is_workflow) job)) → ⊥

  IsRunnerStep-IsKeptStep :
      (step : Fields) → IsRunnerStep D orders is_workflow step → IsKeptStep step
  IsRunnerStep-IsKeptStep step r = record {
    uses = r.uses;
    is_uses = r.is_uses;
    is_runner = r.is_runner;
    inputs = r.inputs;
    is_inputs = r.is_inputs;
    by_token_input =
        AllFields-map r.inputs (λ k v q o. q (mentions_all (mapping (field k v end)) o))
          r.by_token_input;
  }

  forwarded-named :
      (job secrets : Fields)
      → (select (names_token D orders is_workflow) secrets ≡ end)
        ⊎ IsForwarding D orders is_workflow job (select (names_token D orders is_workflow) secrets)
      → AllFields (λ k w. OccursAt k w → (k ≡ named token_name) × CallsWorkflow job) secrets
  forwarded-named job secrets (inl nothing) =
      AllFields-map secrets (λ k v q o. absurd (cc (q, mentions_all (mapping (field k v end)) o)))
        ((select-end_iff _ secrets).0 nothing)
  forwarded-named job secrets (inr f) =
      AllFields-map secrets
        (λ k v q o. (
          q (mentions_all (mapping (field k v end)) o),
          (f.uses, f.is_uses, f.callee, f.is_callee, f.stands),
        ))
        (select-AllFields _ (names_token D orders is_workflow) secrets f.only_name)

  handed_on-named :
      (job secrets : Fields) (v : Value)
      → v ≡ mapping secrets
      → (forwarded D orders is_workflow v ≡ end)
        ⊎ IsForwarding D orders is_workflow job (forwarded D orders is_workflow v)
      → AllFields (λ k w. OccursAt k w → (k ≡ named token_name) × CallsWorkflow job) secrets
  unfolding forwarded
  handed_on-named job secrets v e c = forwarded-named job secrets (
      subst
        (λ w.
          (forwarded D orders is_workflow w ≡ end)
          ⊎ IsForwarding D orders is_workflow job (forwarded D orders is_workflow w))
        e c)

  -- A job of which nothing is reported names the token in no place but those that the policy sanctions.
  pub IsUnreported-IsKept : (job : Fields) → IsUnreported D orders is_workflow job → IsKept job
  IsUnreported-IsKept job c = record {
    handed_on = λ secrets e. handed_on-named job secrets _ e c.forwards;
    steps = c.steps;
    is_steps = c.is_steps;
    by_runner =
        All-map c.steps (λ s r o. IsRunnerStep-IsKeptStep s (r (mentions_all (mapping s) o)))
          c.by_runner;
    remote = c.remote;
    nothing_else = λ o. absurd (
        cc (
          c.nothing_else,
          mentions_all (mapping (select (is_leftover D orders is_workflow) job)) o,
        ));
  }
