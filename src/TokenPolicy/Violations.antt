-- ===== src/TokenPolicy/Violations.antt =====
-- What .github/scripts/check_runner_token_policy.py reports: its messages by their kind, with the line
-- or the job that they name.
use fvdb_core.Prelude.{ℕ}
use fvdb_core.DataRepo.Text.{Text}
use fvdb_core.TokenPolicy.Yaml.{Key}

pub data Violation : Type 0 where
  dynamic_access inherited disallowed_line : ℕ → Violation
  unparsed outside_jobs : Violation
  renamed not_local missing_callee wrong_action disallowed_input : Key → Violation
  job_level unrecognised local_action checkout : Key → Violation
  git_missing git_failed : Violation
  leaked : Text → Violation
