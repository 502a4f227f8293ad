-- ===== src/TokenPolicy/Jobs/Compliance.antt =====
-- What a job without a violation looks like.
use fvdb_core.Prelude.{
  ◌≡◌, refl, ap, ◌∙◌, Bool, true, false, not, ◌&&◌, Option, none, some, List, [], All, arith,
  Bool-cases, ◌⊎◌, inl, inr, ◌↔◌,
}
use fvdb_core.Prelude.Results.{ok, type_error, raise_if, >>=-eq-ok, ok-injective}
use fvdb_core.DataRepo.Text.{Text, codes}
use fvdb_core.TokenPolicy.Yaml.{
  Key, named, Value, mapping, has_name, Fields, end, field, token_name, get, Dump,
}
use fvdb_core.TokenPolicy.Jobs.Reports.{
  AllFields, ++-nil_iff, report_if-nil_iff, has_name_iff, report_each-nil_iff, All-map,
  select_list-All_iff, not-false, AllFields-map, is_none-end, select-end_iff,
}
use fvdb_core.TokenPolicy.Jobs.Steps.{IsRemote, IsRunnerStep, check_sibling-nil_iff, check_step-nil}
use fvdb_core.TokenPolicy.Jobs.{
  iter_steps, text_or_empty, local_callee, select, is_none, is_nil, report_each, check_sibling,
  forwarded, check_forward, check_callee, check_step, is_leftover, is_renamed, token_steps,
  check_rest, check_token_job, check_job, keys,
}

module _ (D : Dump) (orders : List Key → Bool) (is_workflow : Text → Bool) where
  open D use {mentions}

  -- A job that hands the token on by its own name, to a workflow beside its own.
  pub record IsForwarding (job : Fields) (secrets : Fields) : Type 0 where
    pub only_name : AllFields (λ k v. k ≡ named token_name) secrets
    pub uses : Text
    pub is_uses : text_or_empty type_error (get (codes "uses") job) ≡ ok uses
    pub callee : Text
    pub is_callee : local_callee uses ≡ some callee
    pub stands : is_workflow callee ≡ true

  -- What the script asks of a job that mentions the token. Of a step that mentions it only the action and
  -- the inputs are looked at.
  pub record IsUnreported (job : Fields) : Type 0 where
    pub forwards :
        (forwarded D orders is_workflow (get (codes "secrets") job) ≡ end)
        ⊎ IsForwarding job (forwarded D orders is_workflow (get (codes "secrets") job))
    pub steps : List Fields
    pub is_steps : iter_steps (get (codes "steps") job) ≡ ok steps
    pub by_runner :
        All (λ s. mentions (mapping s) ≡ true → IsRunnerStep D orders is_workflow s) steps
    pub remote : All IsRemote steps
    pub nothing_else : mentions (mapping (select (is_leftover D orders is_workflow) job)) ≡ false
    pub used :
        (is_nil (token_steps D orders is_workflow steps)
          && is_none (forwarded D orders is_workflow (get (codes "secrets") job)))
        ≡ false

  check_callee-nil :
      (name : Key) (o : Option Text)
      → check_callee D orders is_workflow name o ≡ []
      → (callee : Text) × (o ≡ some callee) × (is_workflow callee ≡ true)
  check_callee-nil name none h = absurd (cc h)
  check_callee-nil name (some callee) h =
      (callee, refl, not-false _ ((report_if-nil_iff (not (is_workflow callee)) _).0 h))

  check_forward-nil :
      (name : Key) (job secrets : Fields)
      → check_forward D orders is_workflow name job secrets ≡ ok []
      → (secrets ≡ end) ⊎ IsForwarding job secrets
  unfolding check_forward
  check_forward-nil name job end h = inl refl
  check_forward-nil name job (field k v fs) h =
      let others : Fields = select (is_renamed D orders is_workflow) (field k v fs) in
      let (_, _, h1) = >>=-eq-ok (raise_if (not (orders (keys others))) type_error) _ h in
      let (uses, e, h2) = >>=-eq-ok (text_or_empty type_error (get (codes "uses") job)) _ h1 in
      let (same_name, reached) = (++-nil_iff _ _).0 (ok-injective _ _ h2) in
      let (callee, is_callee, stands) = check_callee-nil name (local_callee uses) reached in
      let kept : not (is_none others) ≡ false = (report_if-nil_iff _ _).0 same_name in
      inr (record {
        only_name =
            AllFields-map (field k v fs) (λ j w q. (has_name_iff j token_name).0 (ground arith))
              ((select-end_iff _ (field k v fs)).0 (is_none-end others (ground arith)));
        uses = uses;
        is_uses = e;
        callee = callee;
        is_callee = is_callee;
        stands = stands;
      })

  check_rest-nil_iff :
      (name : Key) (job : Fields) (steps : List Fields)
      → (check_rest D orders is_workflow name job steps ≡ []) ↔ (
          (mentions (mapping (select (is_leftover D orders is_workflow) job)) ≡ false)
          × ((is_nil (token_steps D orders is_workflow steps)
                && is_none (forwarded D orders is_workflow (get (codes "secrets") job)))
              ≡ false))
  unfolding check_rest
  check_rest-nil_iff name job steps =
      elim (Bool-cases (mentions (mapping (select (is_leftover D orders is_workflow) job)))) [
        | inl left ↦ (λ h. absurd (cc (rw left at h)), λ h. absurd (cc (left, h.0)))
        | inr gone ↦ (
          λ h. (gone, (report_if-nil_iff _ _).0 (rw gone at h)),
          λ h. rw gone ((report_if-nil_iff _ _).1 h.1),
        )
      ]

  check_token_job-nil :
      (name : Key) (job : Fields)
      → check_token_job D orders is_workflow name job ≡ ok []
      → IsUnreported job
  unfolding check_token_job token_steps
  check_token_job-nil name job h =
      let secrets : Fields = forwarded D orders is_workflow (get (codes "secrets") job) in
      let (forwards, ef, h1) =
        >>=-eq-ok (check_forward D orders is_workflow name job secrets) _ h in
      let (steps, es, h2) = >>=-eq-ok (iter_steps (get (codes "steps") job)) _ h1 in
      let (used, eu, h3) =
        >>=-eq-ok
          (report_each (check_step D orders is_workflow name)
            (token_steps D orders is_workflow steps))
          _ h2 in
      let (siblings, eg, h4) = >>=-eq-ok (report_each (check_sibling name) steps) _ h3 in
      let (no_forwards, k1) = (++-nil_iff forwards _).0 (ok-injective _ _ h4) in
      let (no_used, k2) = (++-nil_iff used _).0 k1 in
      let (no_rest, no_siblings) =
        (++-nil_iff (check_rest D orders is_workflow name job steps) siblings).0 k2 in
      let rest = (check_rest-nil_iff name job steps).0 no_rest in
      record {
        forwards = check_forward-nil name job secrets (ef ∙ ap ok no_forwards);
        steps = steps;
        is_steps = es;
        by_runner =
            All-map steps (λ s r m. check_step-nil D orders is_workflow name s (r m))
              ((select_list-All_iff _ _ steps).0
                ((report_each-nil_iff _ _).0 (eu ∙ ap ok no_used)));
        remote =
            All-map steps (λ s. (check_sibling-nil_iff name s).0)
              ((report_each-nil_iff (check_sibling name) steps).0 (eg ∙ ap ok no_siblings));
        nothing_else = rest.0;
        used = rest.1;
      }

  pub check_job-nil :
      (name : Key) (job : Fields)
      → check_job D orders is_workflow name (mapping job) ≡ ok []
      → mentions (mapping job) ≡ true
      → IsUnreported job
  unfolding check_job
  check_job-nil name job h m = check_token_job-nil name job (rw m at h)

  abbrev pub is_aside : Key → Value → Bool
  is_aside k v = not (has_name k (codes "with"))

  -- Nothing of the step but its inputs mentions the token.
  abbrev pub IsInputsOnly : Fields → Type 0
  IsInputsOnly step = mentions (mapping (select is_aside step)) ≡ false

  -- The policy as it is documented: besides, a step mentions the token among its inputs alone.
  pub record IsCompliant (job : Fields) : Type 0 where
    pub unreported : IsUnreported job
    pub confined : All IsInputsOnly unreported.steps
