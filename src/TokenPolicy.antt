-- ===== src/TokenPolicy.antt =====
-- .github/scripts/check_runner_token_policy.py: the check that keeps the runner's token to its uses.
pub mod Yaml
pub mod Violations
pub mod Lines
pub mod Jobs
pub mod Workflow
pub mod Run
