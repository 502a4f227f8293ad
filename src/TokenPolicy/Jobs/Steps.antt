-- ===== src/TokenPolicy/Jobs/Steps.antt =====
-- What a step without a violation looks like.
use fvdb_core.Prelude.{◌≡◌, ◌≢◌, refl, Bool, true, false, not, List, [], arith, ◌↔◌}
use fvdb_core.Prelude.Results.{ok, type_error, attribute_error, raise_if, >>=-eq-ok, ok-injective}
use fvdb_core.DataRepo.Text.{Text, codes, same_iff, starts_with}
use fvdb_core.TokenPolicy.Yaml.{Key, named, mapping, Fields, end, field, get, Dump}
use fvdb_core.TokenPolicy.Jobs.Reports.{
  AllFields, two_reports-nil_iff, or_false, same-false_iff, not-same-false_iff, AllFields-map,
  is_none-end, select-end_iff, spared_iff,
}
use fvdb_core.TokenPolicy.Jobs.{
  allowed_action, text_or_empty, fields_or_empty, before_at, select, check_sibling, check_step,
  is_offending, keys,
}

-- A step that runs no local action and checks nothing out.
pub record IsRemote (step : Fields) : Type 0 where
  pub uses : Text
  pub is_uses : text_or_empty attribute_error (get (codes "uses") step) ≡ ok uses
  pub not_here : starts_with uses (codes "./") ≡ false
  pub not_above : starts_with uses (codes "../") ≡ false
  pub no_checkout : before_at uses ≢ codes "actions/checkout"

pub check_sibling-nil_iff :
    (name : Key) (step : Fields) → (check_sibling name step ≡ ok []) ↔ IsRemote step
unfolding check_sibling
check_sibling-nil_iff name step = (forth, back)
  where
    forth : check_sibling name step ≡ ok [] → IsRemote step
    forth h =
        let (uses, e, h1) =
          >>=-eq-ok (text_or_empty attribute_error (get (codes "uses") step)) _ h in
        let (away, unchecked) = (two_reports-nil_iff _ _ _ _).0 (ok-injective _ _ h1) in
        let (not_here, not_above) = or_false _ _ away in
        record {
          uses = uses;
          is_uses = e;
          not_here = not_here;
          not_above = not_above;
          no_checkout = (same-false_iff _ _).0 unchecked;
        }

    back : IsRemote step → check_sibling name step ≡ ok []
    back r = rw r.is_uses (
        rw r.not_here (
          rw r.not_above (rw ((same-false_iff _ (codes "actions/checkout")).1 r.no_checkout) refl)))

module _ (D : Dump) (orders : List Key → Bool) (is_workflow : Text → Bool) where
  open D use {mentions}

  -- A step of the runner's action that gives it the token by its input `github-token` alone.
  pub record IsRunnerStep (step : Fields) : Type 0 where
    pub uses : Text
    pub is_uses : text_or_empty attribute_error (get (codes "uses") step) ≡ ok uses
    pub is_runner : before_at uses ≡ allowed_action
    pub inputs : Fields
    pub is_inputs : fields_or_empty (get (codes "with") step) ≡ ok inputs
    pub by_token_input :
        AllFields
          (λ k v. mentions (mapping (field k v end)) ≡ true → k ≡ named (codes "github-token"))
          inputs

  pub check_step-nil :
      (name : Key) (step : Fields)
      → check_step D orders is_workflow name step ≡ ok []
      → IsRunnerStep step
  unfolding check_step
  check_step-nil name step h =
      let (uses, e, h1) = >>=-eq-ok (text_or_empty attribute_error (get (codes "uses") step)) _ h in
      let (inputs, ei, h2) = >>=-eq-ok (fields_or_empty (get (codes "with") step)) _ h1 in
      let offending : Fields = select (is_offending D orders is_workflow) inputs in
      let (_, _, h3) = >>=-eq-ok (raise_if (not (orders (keys offending))) type_error) _ h2 in
      let (runner, none_offends) = (two_reports-nil_iff _ _ _ _).0 (ok-injective _ _ h3) in
      record {
        uses = uses;
        is_uses = e;
        is_runner = (not-same-false_iff _ _).0 runner;
        inputs = inputs;
        is_inputs = ei;
        by_token_input =
            AllFields-map inputs (λ k v. (spared_iff k (codes "github-token") _).0)
              ((select-end_iff _ inputs).0 (is_none-end offending (ground arith)));
      }

  pub check_step-IsRunnerStep :
      (name : Key) (step : Fields)
      → orders [] ≡ true
      → IsRunnerStep step
      → check_step D orders is_workflow name step ≡ ok []
  unfolding check_step
  check_step-IsRunnerStep name step sorts r =
      let nothing : select (is_offending D orders is_workflow) r.inputs ≡ end =
        (select-end_iff _ r.inputs).1 (
          AllFields-map r.inputs (λ k v. (spared_iff k (codes "github-token") _).1)
            r.by_token_input) in
      rw r.is_uses (
        rw r.is_inputs (
          rw nothing
            (rw sorts (rw ((same_iff (before_at r.uses) allowed_action).1 r.is_runner) refl))))
