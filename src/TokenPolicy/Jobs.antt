-- ===== src/TokenPolicy/Jobs.antt =====
-- The rules for one job of a workflow, in `check_workflow_file` of
-- .github/scripts/check_runner_token_policy.py.
pub mod Reports
pub mod Steps
pub mod Compliance
pub mod Occurrences
use fvdb_core.Prelude.{
  ℕ, ◌≡◌, Bool, true, false, not, ◌&&◌, ◌||◌, Option, none, some, List, [], ◌∷◌, ◌++◌,
  if◌then◌else◌, ◌==◌,
}
use fvdb_core.Prelude.Results.{
  Result, ok, raise, Exception, type_error, attribute_error, raise_if, ◌>>=◌, ◌>>◌,
}
use fvdb_core.DataRepo.Text.{Text, codes, same, starts_with, ends_with}
use fvdb_core.TokenPolicy.Yaml.{
  Key, Value, null, other_scalar, text, sequence, mapping, Values, nil, cons, Fields, end, field,
  token_name, has_name, get, Dump,
}
use fvdb_core.TokenPolicy.Violations.{
  Violation, renamed, not_local, missing_callee, wrong_action, disallowed_input, job_level,
  unrecognised, local_action, checkout,
}
use fvdb_core.TokenPolicy.Lines.{after_literal}

-- `ALLOWED_ACTION`
abbrev pub allowed_action : Text
allowed_action = codes "machulav/ec2-github-runner"

abbrev pub mappings : Values → List Fields
mappings nil = []
mappings (cons (mapping fs) vs) = fs ∷ mappings vs
mappings (cons _ vs) = mappings vs

-- `iter_steps`, all that it yields, of the value of `steps`
unfoldable pub iter_steps : Value → Result (List Fields)
iter_steps null = ok []
iter_steps other_scalar = raise type_error
iter_steps (text t) = ok []
iter_steps (sequence vs) = ok (mappings vs)
iter_steps (mapping fs) = ok []

-- `value or ""`, and the exception where its use as text raises.
unfoldable pub text_or_empty : Exception → Value → Result Text
text_or_empty e null = ok []
text_or_empty e other_scalar = raise e
text_or_empty e (text t) = ok t
text_or_empty e (sequence nil) = ok []
text_or_empty e (sequence (cons v vs)) = raise e
text_or_empty e (mapping end) = ok []
text_or_empty e (mapping (field k v fs)) = raise e

-- `value or {}`, of which `.items()` is asked.
unfoldable pub fields_or_empty : Value → Result Fields
fields_or_empty null = ok end
fields_or_empty other_scalar = raise attribute_error
fields_or_empty (text []) = ok end
fields_or_empty (text (c ∷ t)) = raise attribute_error
fields_or_empty (sequence nil) = ok end
fields_or_empty (sequence (cons v vs)) = raise attribute_error
fields_or_empty (mapping fs) = ok fs

-- `uses.split("@")[0]`
unfoldable pub before_at : Text → Text
before_at [] = []
before_at (c ∷ s) = if c == b'@' then [] else c ∷ before_at s

abbrev pub has_slash : Text → Bool
has_slash [] = false
has_slash (c ∷ s) = c == b'/' || has_slash s

-- `[^/]+\.ya?ml`
abbrev pub is_yaml_name : Text → Bool
is_yaml_name s =
    not (has_slash s)
    && ((ends_with s (codes ".yml") && not (same s (codes ".yml")))
        || (ends_with s (codes ".yaml") && not (same s (codes ".yaml"))))

-- What stands before a newline at the end.
abbrev pub without_newline : Text → Text
without_newline [] = []
without_newline (c ∷ []) = if c == 10 then [] else c ∷ []
without_newline (c ∷ d ∷ s) = c ∷ without_newline (d ∷ s)

-- The group of `LOCAL_REUSABLE.match`. Its `$` also matches before a newline at the end.
abbrev pub callee_name : Text → Option Text
callee_name s =
    if is_yaml_name s
    then some s
    else if is_yaml_name (without_newline s)
    then some (without_newline s)
    else none

unfoldable pub local_callee : Text → Option Text
local_callee uses = elim (after_literal uses (codes "./.github/workflows/")) [
  | none ↦ none
  | some rest ↦ callee_name rest
]

abbrev pub report_if : Bool → Violation → List Violation
report_if test v = if test then v ∷ [] else []

-- The fields with a test, as keys and as fields.
unfoldable pub select : (Key → Value → Bool) → Fields → Fields
select p end = end
select p (field k v fs) = if p k v then field k v (select p fs) else select p fs

abbrev pub keys : Fields → List Key
keys end = []
keys (field k v fs) = k ∷ keys fs

abbrev pub is_none : Fields → Bool
is_none end = true
is_none (field k v fs) = false

abbrev pub select_list : (Fields → Bool) → List Fields → List Fields
select_list p [] = []
select_list p (s ∷ ss) = if p s then s ∷ select_list p ss else select_list p ss

abbrev pub is_nil : List Fields → Bool
is_nil [] = true
is_nil (s ∷ ss) = false

-- A loop that appends what it reports.
unfoldable pub report_each :
    (Fields → Result (List Violation)) → List Fields → Result (List Violation)
report_each check [] = ok []
report_each check (s ∷ ss) = do found ← check s; rest ← report_each check ss; ok (found ++ rest)

-- Rule 4 for one step
unfoldable pub check_sibling : Key → Fields → Result (List Violation)
check_sibling job_name step = do
  uses ← text_or_empty attribute_error (get (codes "uses") step)
  ok (
      report_if (starts_with uses (codes "./") || starts_with uses (codes "../"))
        (local_action job_name)
      ++ report_if (same (before_at uses) (codes "actions/checkout")) (checkout job_name))

-- `yaml.safe_dump` is `D`; `orders` says of keys whether `sorted` orders them or raises; `is_workflow`
-- says of a name whether it is a file beside the workflow.
module _ (D : Dump) (orders : List Key → Bool) (is_workflow : Text → Bool) where
  open D use {mentions}

  -- `_mentions_token({k: v})`
  abbrev pub names_token : Key → Value → Bool
  names_token k v = mentions (mapping (field k v end))

  -- `forwarded`
  unfoldable pub forwarded : Value → Fields
  forwarded (mapping fs) = select names_token fs
  forwarded _ = end

  abbrev pub is_renamed : Key → Value → Bool
  is_renamed k v = not (has_name k token_name)

  abbrev pub check_callee : Key → Option Text → List Violation
  check_callee job_name none = not_local job_name ∷ []
  check_callee job_name (some name) = report_if (not (is_workflow name)) (missing_callee job_name)

  -- Rule 3b
  unfoldable pub check_forward : Key → Fields → Fields → Result (List Violation)
  check_forward job_name job end = ok []
  check_forward job_name job (field k v fs) = do
    raise_if (not (orders (keys (select is_renamed (field k v fs))))) type_error
    uses ← text_or_empty type_error (get (codes "uses") job)
    ok (
        report_if (not (is_none (select is_renamed (field k v fs)))) (renamed job_name)
        ++ check_callee job_name (local_callee uses))

  abbrev pub is_offending : Key → Value → Bool
  is_offending k v = not (has_name k (codes "github-token")) && names_token k v

  -- Rule 3a for one step that mentions the token
  unfoldable pub check_step : Key → Fields → Result (List Violation)
  check_step job_name step = do
    uses ← text_or_empty attribute_error (get (codes "uses") step)
    with_block ← fields_or_empty (get (codes "with") step)
    raise_if (not (orders (keys (select is_offending with_block)))) type_error
    ok (
        report_if (not (same (before_at uses) allowed_action)) (wrong_action job_name)
        ++ report_if (not (is_none (select is_offending with_block))) (disallowed_input job_name))

  abbrev pub is_leftover : Key → Value → Bool
  is_leftover k v = not (has_name k (codes "steps") || has_name k (codes "secrets"))

  unfoldable pub token_steps : List Fields → List Fields
  token_steps = select_list (λ step. mentions (mapping step))

  -- What is left of the job, and a mention in no known shape
  unfoldable pub check_rest : Key → Fields → List Fields → List Violation
  check_rest job_name job steps =
      if mentions (mapping (select is_leftover job))
      then job_level job_name ∷ []
      else report_if (is_nil (token_steps steps) && is_none (forwarded (get (codes "secrets") job)))
          (unrecognised job_name)

  -- A job that mentions the token
  unfoldable pub check_token_job : Key → Fields → Result (List Violation)
  check_token_job job_name job = do
    forwards ← check_forward job_name job (forwarded (get (codes "secrets") job))
    steps ← iter_steps (get (codes "steps") job)
    used ← report_each (check_step job_name) (token_steps steps)
    siblings ← report_each (check_sibling job_name) steps
    ok (forwards ++ (used ++ (check_rest job_name job steps ++ siblings)))

  -- One turn of the loop over the jobs
  unfoldable pub check_job : Key → Value → Result (List Violation)
  check_job job_name (mapping job) =
      if mentions (mapping job) then check_token_job job_name job else ok []
  check_job job_name _ = ok []
