-- ===== src/Convert/Targets.antt =====
-- `validate_targets` of crates/common/src/services/inbox_convert.rs. Lower case is the parameter `lower`.
pub mod Valid
use sebenza.Base.{
  ℕ, zero, suc, ◌+◌, ◌-◌, ◌*◌, ◌/◌, ◌%◌, ◌^◌, ◌≤◌, ◌<◌, max, Text, codes, ◌≡◌, ◌≢◌, refl, sym, ap,
  ◌∙◌, subst, ◌↔◌, ◌⊎◌, inl, inr, Bool, true, false, not, ◌&&◌, ◌||◌, Option, none, some, List, [],
  ◌∷◌, ◌++◌, map, append-nil, append_assoc, arith, Eq, ◌==◌, nat_eq, text_eq, text_beq,
  text_beq_iff, text_beq_refl, nat_beq_iff, ltb, leb, if◌then◌else◌, unwrap_or, is_some, or_else,
  is_some_and, keep_if, all, any, find, filter, filter_map, find_map, contains, length, take,
  lookup, insert, remove, is_empty, is_blank, trim, Bool-cases, Option-cases, All, byte_len,
}
use sebenza.Events.{WorktreeKey, key_eq}
use sebenza.Policies.Branch.{is_valid_branch_name}
use sebenza.Policies.Paths.{is_safe_project_path}
use sebenza.Convert.{
  ConversionTarget, TargetError, no_targets, too_many, unsafe_project_path, unknown_project,
  invalid_branch, invalid_base_branch, duplicate_branch, empty_prompt, system_instruction_too_long,
}

abbrev pub max_targets : ℕ
max_targets = 10

abbrev pub max_system_instruction_bytes : ℕ
max_system_instruction_bytes = 32 * 1024

abbrev pub target_key : ConversionTarget → WorktreeKey
target_key target = record { project = target.project_path; branch = target.branch }

abbrev pub when : Bool → TargetError → List TargetError
when true e = e ∷ []
when false e = []

unfoldable pub path_errors : List Text → ℕ → ConversionTarget → List TargetError
path_errors known index target =
    if not (is_safe_project_path target.project_path)
    then unsafe_project_path index target.project_path ∷ []
    else when (not (any (λ p. p == target.project_path) known))
        (unknown_project index target.project_path)

module _ (lower : Text → Text) where
  -- A base branch that is stated is checked.
  abbrev pub base_errors : ℕ → Option Text → List TargetError
  base_errors index none = []
  base_errors index (some base) =
      when (not (is_empty (trim base)) && not (is_valid_branch_name lower (trim base)))
        (invalid_base_branch index (trim base))

  abbrev pub is_long : Option Text → Bool
  is_long instruction = is_some_and instruction (λ s. ltb max_system_instruction_bytes (byte_len s))

  -- The body of the loop.
  unfoldable pub target_errors :
      List Text → List WorktreeKey → ℕ → ConversionTarget → List TargetError
  target_errors known seen index target =
      path_errors known index target
      ++ (when (not (is_valid_branch_name lower target.branch)) (invalid_branch index target.branch)
          ++ (base_errors index target.base_branch
              ++ (when (contains seen (target_key target)) (duplicate_branch index target.branch)
                  ++ (when (is_blank target.prompt) (empty_prompt index)
                      ++ when (is_long target.system_instruction)
                          (system_instruction_too_long index)))))

  unfoldable pub validate_from :
      List Text → List WorktreeKey → ℕ → List ConversionTarget → List TargetError
  validate_from known seen index [] = []
  validate_from known seen index (target ∷ targets) =
      target_errors known seen index target
      ++ validate_from known (seen ++ target_key target ∷ []) (index + 1) targets

  unfoldable pub validate_targets : List ConversionTarget → List Text → List TargetError
  validate_targets targets known =
      if is_empty targets
      then no_targets ∷ []
      else when (ltb max_targets (length targets)) (too_many (length targets))
        ++ validate_from known [] 0 targets
