-- ===== src/TokenPolicy/Workflow.antt =====
-- `check_workflow_file` of .github/scripts/check_runner_token_policy.py.
pub mod Safety
use fvdb_core.Prelude.{
  ℕ, ◌+◌, ◌≡◌, Bool, true, false, not, ◌&&◌, ◌||◌, Option, none, some, List, [], ◌∷◌, ◌++◌,
  if◌then◌else◌, ◌==◌,
}
use fvdb_core.Prelude.Results.{Result, ok, raise, ◌>>=◌}
use fvdb_core.DataRepo.Text.{Text, codes, contains_text, between}
use fvdb_core.TokenPolicy.Yaml.{
  Key, Value, Loaded, mapping, Fields, end, field, token_name, has_name, get, get_true, has_key,
  without, update, update_true, Dump,
}
use fvdb_core.TokenPolicy.Violations.{
  Violation, dynamic_access, inherited, disallowed_line, unparsed, outside_jobs,
}
use fvdb_core.TokenPolicy.Lines.{is_allowed_line, is_inherit_line, has_dynamic_secret}
use fvdb_core.TokenPolicy.Jobs.{select, report_if, fields_or_empty, check_job}

abbrev pub is_line_break : ℕ → Bool
is_line_break c = between 10 13 c || (between 28 30 c || (c == 133 || (c == 8232 || c == 8233)))

abbrev pub onto_first : ℕ → List Text → List Text
onto_first c [] = (c ∷ []) ∷ []
onto_first c (l ∷ ls) = (c ∷ l) ∷ ls

-- `str.splitlines`; the test is whether a carriage return stands before.
unfoldable pub splitlines_after : Bool → Text → List Text
splitlines_after returned [] = []
splitlines_after returned (c ∷ s) =
    if returned && c == 10
    then splitlines_after false s
    else if is_line_break c
    then [] ∷ splitlines_after (c == 13) s
    else onto_first c (splitlines_after false s)

abbrev pub splitlines : Text → List Text
splitlines = splitlines_after false

-- A loop over the lines, from the line with the given number.
unfoldable pub report_lines : (ℕ → Text → List Violation) → ℕ → List Text → List Violation
report_lines check lineno [] = []
report_lines check lineno (line ∷ lines) =
    check lineno line ++ report_lines check (lineno + 1) lines

-- Rules 5 and 6
unfoldable pub check_blanket : ℕ → Text → List Violation
check_blanket lineno line =
    report_if (has_dynamic_secret false line) (dynamic_access lineno)
    ++ report_if (is_inherit_line line) (inherited lineno)

-- Rule 2
unfoldable pub check_line : ℕ → Text → List Violation
check_line lineno line =
    report_if (contains_text line token_name && not (is_allowed_line line)) (disallowed_line lineno)

abbrev pub fields_of_mapping : Value → Option Fields
fields_of_mapping (mapping fs) = some fs
fields_of_mapping _ = none

abbrev pub declares_token : Value → Bool
declares_token (mapping secrets) = has_key token_name secrets
declares_token _ = false

-- A workflow call, and its secrets, without the declaration of the token.
abbrev pub without_secret : Value → Value
without_secret (mapping secrets) = mapping (without token_name secrets)
without_secret other = other

abbrev pub undeclared_call : Value → Value
undeclared_call (mapping call) =
    if declares_token (get (codes "secrets") call)
    then mapping (update (codes "secrets") (without_secret (get (codes "secrets") call)) call)
    else mapping call
undeclared_call other = other

abbrev pub undeclared_block : Fields → Fields
undeclared_block block =
    update (codes "workflow_call") (undeclared_call (get (codes "workflow_call") block)) block

-- `_on_block`, `_token_secret_declaration` and the removal of what it finds: the two spellings of the
-- trigger's key are tried in turn.
unfoldable pub without_declaration : Fields → Fields
without_declaration workflow = elim (fields_of_mapping (get (codes "on") workflow)) [
  | some block ↦ update (codes "on") (mapping (undeclared_block block)) workflow
  | none ↦ elim (fields_of_mapping (get_true workflow)) [
    | some block ↦ update_true (mapping (undeclared_block block)) workflow
    | none ↦ workflow
  ]
]

abbrev pub is_outside : Key → Value → Bool
is_outside k v = not (has_name k (codes "jobs"))

-- `load` is `yaml.safe_load`, with nothing where it raises a `YAMLError`.
module _ (D : Dump) (orders : List Key → Bool) (is_workflow : Text → Bool)
    (load : Text → Result (Option Loaded)) where
  open D use {mentions}

  -- The loop over the jobs
  unfoldable pub check_jobs : Fields → Result (List Violation)
  check_jobs end = ok []
  check_jobs (field name job rest) = do
    found ← check_job D orders is_workflow name job
    others ← check_jobs rest
    ok (found ++ others)

  -- The structural rules
  unfoldable pub check_parsed : Option Loaded → Result (List Violation)
  check_parsed none = ok (unparsed ∷ [])
  check_parsed (some loaded) = do
    workflow ← fields_or_empty loaded.value
    jobs ← fields_or_empty (get (codes "jobs") (loaded.alias (without_declaration workflow)))
    found ← check_jobs jobs
    ok (
        report_if
          (mentions (mapping (select is_outside (loaded.alias (without_declaration workflow)))))
          outside_jobs
        ++ found)

  -- `TOKEN_REF not in text and TOKEN_NAME not in text`
  abbrev pub is_silent : Text → Bool
  is_silent text =
      not (contains_text text (codes "secrets." ++ token_name))
      && not (contains_text text token_name)

  abbrev pub check_named : Bool → Text → Result (List Violation)
  check_named true text = ok []
  check_named false text = do
    parsed ← load text
    found ← check_parsed parsed
    ok (report_lines check_line 1 (splitlines text) ++ found)

  -- `check_workflow_file`
  unfoldable pub check_workflow_file : Text → Result (List Violation)
  check_workflow_file text = do
    found ← check_named (is_silent text) text
    ok (report_lines check_blanket 1 (splitlines text) ++ found)
