-- ===== src/TokenPolicy/Workflow/Safety.antt =====
-- What a workflow without a violation looks like.
use fvdb_core.Prelude.{
  ℕ, ◌+◌, ◌≡◌, sym, subst, ap, ◌∙◌, Bool, true, false, not, ◌&&◌, Option, none, some, List, [], ◌∷◌,
  All, ◌⊎◌, arith,
}
use fvdb_core.Prelude.Results.{Result, ok, >>=-eq-ok, ok-injective}
use fvdb_core.DataRepo.Text.{Text, codes, contains_text}
use fvdb_core.TokenPolicy.Yaml.{
  Key, Value, Loaded, mapping, Fields, end, field, token_name, get, Occurs, Dump,
}
use fvdb_core.TokenPolicy.Violations.{Violation}
use fvdb_core.TokenPolicy.Lines.{
  is_allowed_line, inherit_line, action_input_line, forward_line, declare_line,
}
use fvdb_core.TokenPolicy.Lines.Forms.{Reads, is_allowed_line_iff}
use fvdb_core.TokenPolicy.Lines.Blanket.{IsIndex, IsIndex-found, is_inherit_line-found}
use fvdb_core.TokenPolicy.Jobs.{select, fields_or_empty, check_job}
use fvdb_core.TokenPolicy.Jobs.Reports.{
  AllFields, ++-nil_iff, report_if-nil_iff, two_reports-nil_iff,
}
use fvdb_core.TokenPolicy.Jobs.Compliance.{check_job-nil}
use fvdb_core.TokenPolicy.Jobs.Occurrences.{IsKept, IsUnreported-IsKept}
use fvdb_core.TokenPolicy.Workflow.{
  splitlines, report_lines, check_blanket, check_line, without_declaration, is_outside, check_jobs,
  check_parsed, is_silent, check_named, check_workflow_file,
}

report_lines-nil :
    (check : ℕ → Text → List Violation) (P : Text → Type 0)
    → ((n : ℕ) (line : Text) → check n line ≡ [] → P line)
    → (n : ℕ) (lines : List Text) → report_lines check n lines ≡ []
    → All P lines
unfolding report_lines
report_lines-nil check P f n [] h = tt
report_lines-nil check P f n (line ∷ lines) h =
    let (here, later) = (++-nil_iff (check n line) _).0 h in
    (f n line here, report_lines-nil check P f (n + 1) lines later)

-- A line that is no `secrets: inherit`, and in which no index follows on `secrets` as a word.
abbrev pub IsNarrow : Text → Type 0
IsNarrow line = (IsIndex line → ⊥) × (Reads inherit_line line → ⊥)

check_blanket-nil : (n : ℕ) (line : Text) → check_blanket n line ≡ [] → IsNarrow line
unfolding check_blanket
check_blanket-nil n line h =
    let (no_index, no_inherit) = (two_reports-nil_iff _ _ _ _).0 h in
    (
      λ i. absurd (cc (no_index, IsIndex-found line i)),
      λ r. absurd (cc (no_inherit, is_inherit_line-found line r)),
    )

-- A line that names the token has one of the three forms.
abbrev pub IsFormed : Text → Type 0
IsFormed line =
    contains_text line token_name ≡ true
    → Reads action_input_line line ⊎ (Reads forward_line line ⊎ Reads declare_line line)

check_line-nil : (n : ℕ) (line : Text) → check_line n line ≡ [] → IsFormed line
unfolding check_line
check_line-nil n line h m =
    let no : (contains_text line token_name && not (is_allowed_line line)) ≡ false =
      (report_if-nil_iff _ _).0 h in
    (is_allowed_line_iff line).0 (ground arith)

module _ (D : Dump) (orders : List Key → Bool) (is_workflow : Text → Bool)
    (load : Text → Result (Option Loaded)) where
  open D use {mentions, mentions_all}

  -- A job that, where the token's name occurs in it, keeps it to its places.
  abbrev pub IsKeptJob : Key → Value → Type 0
  IsKeptJob name value =
      (job : Fields) → value ≡ mapping job → Occurs (mapping job) → IsKept D orders is_workflow job

  -- A workflow that names the token: its lines, what stands outside its jobs, and its jobs.
  pub record IsConfined (text : Text) : Type 0 where
    pub formed : All IsFormed (splitlines text)
    pub loaded : Loaded
    pub is_loaded : load text ≡ ok (some loaded)
    pub workflow : Fields
    pub is_mapping : fields_or_empty loaded.value ≡ ok workflow
    pub outside : Occurs (mapping (select is_outside (without_declaration workflow))) → ⊥
    pub jobs : Fields
    pub is_jobs : fields_or_empty (get (codes "jobs") (without_declaration workflow)) ≡ ok jobs
    pub kept : AllFields IsKeptJob jobs

  pub record IsSafe (text : Text) : Type 0 where
    pub narrow : All IsNarrow (splitlines text)
    pub confined : contains_text text token_name ≡ true → IsConfined text

  check_jobs-nil :
      (jobs : Fields) → check_jobs D orders is_workflow load jobs ≡ ok [] → AllFields IsKeptJob jobs
  unfolding check_jobs
  check_jobs-nil end h = tt
  check_jobs-nil (field name job rest) h =
      let (found, e, h1) = >>=-eq-ok (check_job D orders is_workflow name job) _ h in
      let (others, eo, h2) = >>=-eq-ok (check_jobs D orders is_workflow load rest) _ h1 in
      let (here, later) = (++-nil_iff found others).0 (ok-injective _ _ h2) in
      (
        λ fs same o. IsUnreported-IsKept D orders is_workflow fs (
            check_job-nil D orders is_workflow name fs
              (ap (check_job D orders is_workflow name) (sym same) ∙ e ∙ ap ok here)
              (mentions_all (mapping fs) o)),
        check_jobs-nil rest (eo ∙ ap ok later),
      )

  -- The removal of the declaration changes no other part of what is loaded.
  abbrev pub IsPlain : Type 0
  IsPlain =
      (text : Text) (loaded : Loaded) (workflow : Fields)
      → load text ≡ ok (some loaded)
      → loaded.alias workflow ≡ workflow

  check_parsed-nil :
      (text : Text) (parsed : Option Loaded)
      → IsPlain
      → load text ≡ ok parsed
      → All IsFormed (splitlines text)
      → check_parsed D orders is_workflow load parsed ≡ ok []
      → IsConfined text
  unfolding check_parsed
  check_parsed-nil text none plain hl formed h = absurd (cc (ok-injective _ _ h))
  check_parsed-nil text (some loaded) plain hl formed h =
      let (workflow, e, h1) = >>=-eq-ok (fields_or_empty loaded.value) _ h in
      let same = plain text loaded (without_declaration workflow) hl in
      let (jobs, ej, h2) =
        >>=-eq-ok
          (fields_or_empty (get (codes "jobs") (loaded.alias (without_declaration workflow)))) _
          h1 in
      let (found, ef, h3) = >>=-eq-ok (check_jobs D orders is_workflow load jobs) _ h2 in
      let (outside, no_job) = (++-nil_iff _ found).0 (ok-injective _ _ h3) in
      record {
        formed = formed;
        loaded = loaded;
        is_loaded = hl;
        workflow = workflow;
        is_mapping = e;
        outside = λ o. absurd (
            cc (
              subst (λ w. mentions (mapping (select is_outside w)) ≡ false) same
                  ((report_if-nil_iff _ _).0 outside),
              mentions_all (mapping (select is_outside (without_declaration workflow))) o,
            ));
        jobs = jobs;
        is_jobs = ap (λ w. fields_or_empty (get (codes "jobs") w)) (sym same) ∙ ej;
        kept = check_jobs-nil jobs (ef ∙ ap ok no_job);
      }

  check_named-nil :
      (silent : Bool) (text : Text)
      → IsPlain
      → silent ≡ false
      → check_named D orders is_workflow load silent text ≡ ok []
      → IsConfined text
  check_named-nil true text plain s h = absurd (cc s)
  check_named-nil false text plain s h =
      let (parsed, e, h1) = >>=-eq-ok (load text) _ h in
      let (found, ef, h2) = >>=-eq-ok (check_parsed D orders is_workflow load parsed) _ h1 in
      let (lines, none_found) =
        (++-nil_iff (report_lines check_line 1 (splitlines text)) found).0 (ok-injective _ _ h2) in
      check_parsed-nil text parsed plain e
        (report_lines-nil check_line IsFormed check_line-nil 1 (splitlines text) lines)
        (ef ∙ ap ok none_found)

  pub check_workflow_file-nil :
      (text : Text)
      → IsPlain
      → check_workflow_file D orders is_workflow load text ≡ ok []
      → IsSafe text
  unfolding check_workflow_file
  check_workflow_file-nil text plain h =
      let (found, e, h1) =
        >>=-eq-ok
          (check_named D orders is_workflow load (is_silent D orders is_workflow load text) text) _
          h in
      let (lines, none_found) =
        (++-nil_iff (report_lines check_blanket 1 (splitlines text)) found).0
          (ok-injective _ _ h1) in
      record {
        narrow =
            report_lines-nil check_blanket IsNarrow check_blanket-nil 1 (splitlines text) lines;
        confined = λ m. check_named-nil _ text plain (ground arith) (e ∙ ap ok none_found);
      }
