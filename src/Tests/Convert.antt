-- ===== src/Tests/Convert.antt =====
-- A wave of one target, and a request with a target that is not known.
use sebenza.Base.{codes, ◌≡◌, true, none, List, [], ◌∷◌, nat_eq, text_eq, is_empty}
use sebenza.Base.{to_ascii_lowercase}
use sebenza.World.{ok}
use sebenza.Convert.{ConversionTarget}
use sebenza.Convert.Run.{Runner, ConversionItem, run_conversion_item}
use sebenza.Convert.Run.Careful.{
  is_careful, outcome_keys, target_keys, run_conversion_item-is_careful,
}
use sebenza.Convert.Targets.{validate_targets}
use sebenza.Convert.Targets.Valid.{is_good_request, is_empty-validate_targets}

abbrev pub one_target : List ConversionTarget
one_target =
    (record {
      project_path = codes "/p";
      branch = codes "b";
      base_branch = none;
      agent_id = none;
      prompt = codes "do it";
      system_instruction = none;
      architect_first = none;
    })
    ∷ []

abbrev pub runner : Runner
runner = record {
  create_worktree = λ _ t. ok (codes "/w");
  write_note = λ _ _ _. ok tt;
  exclude_note = λ _ _. ok tt;
  send_prompt = λ _ _ _. ok tt;
  has_sebenza_workspace = λ _ _. true;
  now = λ _. [];
}

abbrev item : ConversionItem
item = record { draft_id = codes "d"; title = codes "t"; body = codes "the note" }

run_conversion_item-is_careful_example :
    (outcome_keys (run_conversion_item runner item one_target []).0 ≡ target_keys one_target)
    × (is_careful (run_conversion_item runner item one_target []).1 ≡ true)
run_conversion_item-is_careful_example = run_conversion_item-is_careful runner item one_target

is_empty-validate_targets_example :
    is_empty (validate_targets to_ascii_lowercase one_target [])
    ≡ is_good_request to_ascii_lowercase [] one_target
is_empty-validate_targets_example = is_empty-validate_targets to_ascii_lowercase [] one_target
