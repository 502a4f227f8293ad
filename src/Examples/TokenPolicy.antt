-- ===== src/Examples/TokenPolicy.antt =====
-- Tests of the token policy's model, and instances of its theorems.
use fvdb_core.Prelude.{
  ◌≡◌, refl, Bool, true, false, ◌||◌, Option, some, List, [], ◌∷◌, ◌++◌, arith, ◌⊎◌, inl, inr, ◌↔◌,
}
use fvdb_core.Prelude.Results.{Result, ok}
use fvdb_core.DataRepo.Text.{Text, codes, contains_text, is_space}
use fvdb_core.TokenPolicy.Yaml.{
  Key, named, Value, Loaded, null, other_scalar, text, sequence, mapping, Values, nil, cons, Fields,
  end, field, token_name, get, get_true, has_key, without, update, key_mentions, Occurs, Dump,
}
use fvdb_core.TokenPolicy.Violations.{checkout}
use fvdb_core.TokenPolicy.Lines.{
  is_allowed_line, is_inherit_line, has_dynamic_secret, matches_line, action_input_line,
  forward_line, declare_line,
}
use fvdb_core.TokenPolicy.Lines.Forms.{Reads, is_allowed_line_iff}
use fvdb_core.TokenPolicy.Jobs.{
  check_job, check_token_job, check_forward, check_step, check_sibling, check_rest, report_each,
  forwarded, select, token_steps, iter_steps, text_or_empty, fields_or_empty, before_at,
}
use fvdb_core.TokenPolicy.Workflow.{
  splitlines_after, report_lines, check_blanket, without_declaration, check_jobs, check_parsed,
  check_workflow_file,
}
use fvdb_core.TokenPolicy.Run.{Grep, listed}

abbrev mutual
  written : Value → Bool
  written null = false
  written other_scalar = false
  written (text t) = contains_text t token_name
  written (sequence vs) = written_in vs
  written (mapping fs) = written_among fs

  written_in : Values → Bool
  written_in nil = false
  written_in (cons v vs) = written v || written_in vs

  written_among : Fields → Bool
  written_among end = false
  written_among (field k v fs) = key_mentions k || (written v || written_among fs)

mutual
  written-Occurs : (v : Value) → Occurs v → written v ≡ true
  written-Occurs null o = absurd o
  written-Occurs other_scalar o = absurd o
  written-Occurs (text t) o = o
  written-Occurs (sequence vs) o = written_in-Occurs vs o
  written-Occurs (mapping fs) o = written_among-Occurs fs o

  written_in-Occurs : (vs : Values) → Occurs (sequence vs) → written_in vs ≡ true
  written_in-Occurs nil o = absurd o
  written_in-Occurs (cons v vs) (inl o) = rw (written-Occurs v o) refl
  written_in-Occurs (cons v vs) (inr o) = ground (arith, written_in-Occurs vs o)

  written_among-Occurs : (fs : Fields) → Occurs (mapping fs) → written_among fs ≡ true
  written_among-Occurs end o = absurd o
  written_among-Occurs (field k v fs) (inl o) = rw o refl
  written_among-Occurs (field k v fs) (inr (inl o)) = ground (arith, written-Occurs v o)
  written_among-Occurs (field k v fs) (inr (inr o)) = ground (arith, written_among-Occurs fs o)

abbrev dump : Dump
dump = record { mentions = written; mentions_all = written-Occurs }

abbrev sorts : List Key → Bool
sorts ks = true

abbrev stands : Text → Bool
stands name = true

abbrev secret : Text
secret = codes "${{ secrets.EC2_RUNNER_TOKEN }}"

abbrev one : Text → Value → Fields
one name v = field (named name) v end

abbrev runner_step : Fields
runner_step =
    field (named (codes "uses")) (text (codes "machulav/ec2-github-runner@v2"))
      (one (codes "with") (mapping (one (codes "github-token") (text secret))))

abbrev steps_job : Values → Fields
steps_job steps = one (codes "steps") (sequence steps)

abbrev start : Key
start = named (codes "start")

runner_job :
    check_job dump sorts stands start (mapping (steps_job (cons (mapping runner_step) nil))) ≡ ok []
unfolding check_job check_token_job check_forward forwarded get iter_steps report_each token_steps
    check_step text_or_empty fields_or_empty check_sibling before_at select check_rest
runner_job = refl

-- A checkout beside the runner's step is reported.
checkout_reported :
    check_job dump sorts stands start (
      mapping (
        steps_job (
          cons
            (mapping (one (codes "uses") (text (codes "actions/checkout@v4"))))
            (cons (mapping runner_step) nil))))
    ≡ ok (checkout start ∷ [])
unfolding check_job check_token_job check_forward forwarded get iter_steps report_each token_steps
    check_step text_or_empty fields_or_empty check_sibling before_at select check_rest
checkout_reported = refl

-- The token in the environment of a runner's step is not.
environment_accepted :
    check_job dump sorts stands start (
      mapping (
        steps_job (
          cons
            (mapping
              (field (named (codes "env")) (mapping (one token_name (text secret))) runner_step))
            nil)))
    ≡ ok []
unfolding check_job check_token_job check_forward forwarded get iter_steps report_each token_steps
    check_step text_or_empty fields_or_empty check_sibling before_at select check_rest
environment_accepted = refl

environment_line : is_allowed_line (token_name ++ (codes ": " ++ secret)) ≡ true
unfolding is_allowed_line matches_line is_space
environment_line = refl

-- All secrets, and with them the token, without its name and with no index.
all_secrets_accepted :
    (load : Text → Result (Option Loaded))
    → check_workflow_file dump sorts stands load (codes "run: echo ${{ toJSON(secrets) }}") ≡ ok []
unfolding check_workflow_file report_lines splitlines_after check_blanket has_dynamic_secret
    is_space is_inherit_line matches_line
all_secrets_accepted load = refl

-- A comment after it hides the inheritance of all secrets, and so does a mapping in braces.
inherit_comment_accepted :
    (load : Text → Result (Option Loaded))
    → check_workflow_file dump sorts stands load (codes "    secrets: inherit # all") ≡ ok []
unfolding check_workflow_file report_lines splitlines_after check_blanket has_dynamic_secret
    is_space is_inherit_line matches_line
inherit_comment_accepted load = refl

inherit_braces_accepted :
    (load : Text → Result (Option Loaded))
    → check_workflow_file dump sorts stands load (codes "a: {uses: x/y@z, secrets: inherit}")
      ≡ ok []
unfolding check_workflow_file report_lines splitlines_after check_blanket has_dynamic_secret
    is_space is_inherit_line matches_line
inherit_braces_accepted load = refl

-- The name of the context is read without regard to case, the pattern is not.
upper_case_accepted :
    (load : Text → Result (Option Loaded))
    → check_workflow_file dump sorts stands load (codes "run: echo ${{ SECRETS['X'] }}") ≡ ok []
unfolding check_workflow_file report_lines splitlines_after check_blanket has_dynamic_secret
    is_space is_inherit_line matches_line
upper_case_accepted load = refl

is_allowed_line_iff_example : (is_allowed_line (codes "  EC2_RUNNER_TOKEN: ") ≡ true) ↔ (
    Reads action_input_line (codes "  EC2_RUNNER_TOKEN: ")
    ⊎ (Reads forward_line (codes "  EC2_RUNNER_TOKEN: ")
        ⊎ Reads declare_line (codes "  EC2_RUNNER_TOKEN: ")))
is_allowed_line_iff_example = is_allowed_line_iff (codes "  EC2_RUNNER_TOKEN: ")

-- A workflow of one job, as a text and as a value.
abbrev workflow_text : Text
workflow_text = codes "jobs:" ++ ((10 ∷ []) ++ (codes "    github-token: " ++ secret))

abbrev workflow_value : Value
workflow_value = mapping (
    one (codes "jobs")
      (mapping (field start (mapping (steps_job (cons (mapping runner_step) nil))) end)))

abbrev loaded : Text → Result (Option Loaded)
loaded t = ok (some (record { value = workflow_value; alias = λ w. w }))

abbrev grep : Grep
grep = listed (codes ".github/workflows/tests.yml" ++ (10 ∷ []))

-- A workflow whose job hands its secrets to a remote workflow, by an alias of the mapping that declares the
-- token: the removal of the declaration takes the token out of the job too.
abbrev shared_secrets : Value
shared_secrets = mapping (one token_name null)

abbrev shared_workflow : Value → Value
shared_workflow secrets = mapping (
    field (named (codes "on"))
      (mapping (one (codes "workflow_call") (mapping (one (codes "secrets") shared_secrets))))
      (one (codes "jobs") (
        mapping (
          field start
            (mapping
              (field (named (codes "uses")) (text (codes "x/y@z")) (one (codes "secrets") secrets)))
            end))))

abbrev emptied : Value → Fields
emptied (mapping fs) = fs
emptied v = end

abbrev aliased : Loaded
aliased = record {
  value = shared_workflow shared_secrets;
  alias = λ w. without_declaration (emptied (shared_workflow (mapping end)));
}

aliased_accepted : check_parsed dump sorts stands (λ t. ok (some aliased)) (some aliased) ≡ ok []
unfolding check_parsed without_declaration get get_true update select check_jobs check_job
    fields_or_empty without has_key
aliased_accepted = refl
