-- ===== src/Convert.antt =====
-- crates/common/src/services/inbox_convert.rs: turning one draft into worktrees.
pub mod Targets
pub mod Run
use sebenza.Base.{ℕ, Text, codes, Bool, false, Option, none, some, ◌==◌, text_eq}

pub record ConversionTarget : Type 0 where
  pub project_path : Text
  pub branch : Text
  pub base_branch : Option Text
  pub agent_id : Option Text
  pub prompt : Text
  pub system_instruction : Option Text
  pub architect_first : Option Bool

pub record ConversionOutcome : Type 0 where
  pub project_path : Text
  pub branch : Text
  pub base_branch : Option Text
  pub agent_id : Option Text
  pub prompt : Text
  pub system_instruction : Option Text
  pub architect_first : Bool
  pub outcome : Text
  pub worktree_path : Option Text
  pub error : Option Text
  pub at : Text

pub data TargetError : Type 0 where
  no_targets : TargetError
  too_many : ℕ → TargetError
  unsafe_project_path unknown_project invalid_branch : ℕ → Text → TargetError
  invalid_base_branch duplicate_branch : ℕ → Text → TargetError
  empty_prompt system_instruction_too_long : ℕ → TargetError

unfoldable pub outcome_created : ConversionTarget → Text → Text → ConversionOutcome
outcome_created target worktree_path at = record {
  project_path = target.project_path;
  branch = target.branch;
  base_branch = target.base_branch;
  agent_id = target.agent_id;
  prompt = target.prompt;
  system_instruction = target.system_instruction;
  architect_first = false;
  outcome = codes "created";
  worktree_path = some worktree_path;
  error = none;
  at = at;
}

unfoldable pub outcome_failed : ConversionTarget → Text → Text → ConversionOutcome
outcome_failed target error at = record {
  project_path = target.project_path;
  branch = target.branch;
  base_branch = target.base_branch;
  agent_id = target.agent_id;
  prompt = target.prompt;
  system_instruction = target.system_instruction;
  architect_first = false;
  outcome = codes "failed";
  worktree_path = none;
  error = some error;
  at = at;
}

unfoldable pub is_created : ConversionOutcome → Bool
is_created o = o.outcome == codes "created"
