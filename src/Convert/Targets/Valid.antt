-- ===== src/Convert/Targets/Valid.antt =====
-- Which requests for a conversion have no errors.
use sebenza.Base.{
  ℕ, ◌+◌, Text, ◌≡◌, refl, Bool, true, false, not, ◌&&◌, ◌||◌, Option, none, some, List, [], ◌∷◌,
  ◌++◌, map, arith, ◌==◌, nat_eq, text_eq, ltb, leb, all, any, contains, length, is_empty, is_blank,
  trim, contains-append,
}
use sebenza.Events.{WorktreeKey, key_eq, key_beq_iff}
use sebenza.Policies.Branch.{is_valid_branch_name}
use sebenza.Policies.Paths.{is_safe_project_path}
use sebenza.Convert.{
  ConversionTarget, TargetError, too_many, invalid_branch, duplicate_branch, empty_prompt,
  system_instruction_too_long,
}
use sebenza.Convert.Targets.{
  max_targets, target_key, when, path_errors, base_errors, is_long, target_errors, validate_from,
  validate_targets,
}

unfoldable pub all_distinct : List WorktreeKey → Bool
all_distinct [] = true
all_distinct (k ∷ keys) = not (contains keys k) && all_distinct keys

module _ (lower : Text → Text) (known : List Text) where
  -- A base branch may be left out or blank.
  abbrev pub is_good_base : Option Text → Bool
  is_good_base none = true
  is_good_base (some base) = is_empty (trim base) || is_valid_branch_name lower (trim base)

  -- A target: a safe path of a known project, valid branch names, a prompt, and no long instruction.
  unfoldable pub is_good_target : ConversionTarget → Bool
  is_good_target t =
      is_safe_project_path t.project_path
      && any (λ p. p == t.project_path) known
      && is_valid_branch_name lower t.branch
      && is_good_base t.base_branch
      && not (is_blank t.prompt)
      && not (is_long lower t.system_instruction)

  -- A request: one to ten good targets, no two for the same branch of the same project.
  unfoldable pub is_good_request : List ConversionTarget → Bool
  is_good_request targets =
      not (is_empty targets)
      && leb (length targets) max_targets
      && all is_good_target targets
      && all_distinct (map target_key targets)

  is_empty-append : (xs ys : List TargetError) → is_empty (xs ++ ys) ≡ (is_empty xs && is_empty ys)
  unfolding is_empty
  is_empty-append [] ys = refl
  is_empty-append (x ∷ xs) ys = refl

  is_empty-when : (b : Bool) (e : TargetError) → is_empty (when b e) ≡ not b
  unfolding is_empty
  is_empty-when true e = refl
  is_empty-when false e = refl

  is_empty-base_errors :
      (index : ℕ) (base : Option Text) → is_empty (base_errors lower index base) ≡ is_good_base base
  unfolding is_empty
  is_empty-base_errors index none = refl
  is_empty-base_errors index (some base) = ground arith

  is_empty-path_errors :
      (index : ℕ) (t : ConversionTarget)
      → is_empty (path_errors known index t)
        ≡ (is_safe_project_path t.project_path && any (λ p. p == t.project_path) known)
  unfolding path_errors is_empty
  is_empty-path_errors index t = ground arith

  is_empty-target_errors :
      (seen : List WorktreeKey) (index : ℕ) (t : ConversionTarget)
      → is_empty (target_errors lower known seen index t)
        ≡ (is_good_target t && not (contains seen (target_key t)))
  unfolding target_errors is_good_target
  is_empty-target_errors seen index t =
      let path = path_errors known index t in
      let branch =
        when (not (is_valid_branch_name lower t.branch)) (invalid_branch index t.branch) in
      let base = base_errors lower index t.base_branch in
      let twice = when (contains seen (target_key t)) (duplicate_branch index t.branch) in
      let prompt = when (is_blank t.prompt) (empty_prompt index) in
      let long = when (is_long lower t.system_instruction) (system_instruction_too_long index) in
      ground (
        arith,
        is_empty-append path (branch ++ (base ++ (twice ++ (prompt ++ long)))),
        is_empty-append branch (base ++ (twice ++ (prompt ++ long))),
        is_empty-append base (twice ++ (prompt ++ long)),
        is_empty-append twice (prompt ++ long),
        is_empty-append prompt long,
        is_empty-path_errors index t,
        is_empty-when (not (is_valid_branch_name lower t.branch)) (invalid_branch index t.branch),
        is_empty-base_errors index t.base_branch,
        is_empty-when (contains seen (target_key t)) (duplicate_branch index t.branch),
        is_empty-when (is_blank t.prompt) (empty_prompt index),
        is_empty-when (is_long lower t.system_instruction) (system_instruction_too_long index),
      )

  fresh_keys :
      (seen : List WorktreeKey) (k : WorktreeKey) (keys : List WorktreeKey)
      → all (λ q. not (contains (seen ++ k ∷ []) q)) keys
        ≡ (all (λ q. not (contains seen q)) keys && not (contains keys k))
  unfolding all contains
  fresh_keys seen k [] = refl
  fresh_keys seen k (q ∷ keys) = ground (
    arith,
    fresh_keys seen k keys,
    contains-append seen (k ∷ []) q,
    key_beq_iff q k,
    key_beq_iff k q,
  )

  is_empty-validate_from :
      (seen : List WorktreeKey) (index : ℕ) (targets : List ConversionTarget)
      → is_empty (validate_from lower known seen index targets) ≡ (
          all is_good_target targets
          && all_distinct (map target_key targets)
          && all (λ k. not (contains seen k)) (map target_key targets))
  unfolding validate_from all all_distinct is_empty
  is_empty-validate_from seen index [] = refl
  is_empty-validate_from seen index (t ∷ targets) = ground (
    arith,
    is_empty-append (target_errors lower known seen index t)
        (validate_from lower known (seen ++ target_key t ∷ []) (index + 1) targets),
    is_empty-target_errors seen index t,
    is_empty-validate_from (seen ++ target_key t ∷ []) (index + 1) targets,
    fresh_keys seen (target_key t) (map target_key targets),
  )

  none_seen : (keys : List WorktreeKey) → all (λ k. not (contains [] k)) keys ≡ true
  unfolding all contains
  none_seen [] = refl
  none_seen (k ∷ keys) = none_seen keys

  -- A request for a conversion has no errors exactly when it names one to ten targets, each with a safe
  -- path of a known project, valid branch names, a prompt that is not blank and a system instruction
  -- within the limit, and no two targets with the same branch of the same project.
  pub is_empty-validate_targets :
      (targets : List ConversionTarget)
      → is_empty (validate_targets lower targets known) ≡ is_good_request targets
  unfolding validate_targets is_good_request is_empty
  is_empty-validate_targets targets = ground (
    arith,
    is_empty-append (when (ltb max_targets (length targets)) (too_many (length targets)))
        (validate_from lower known [] 0 targets),
    is_empty-when (ltb max_targets (length targets)) (too_many (length targets)),
    is_empty-validate_from [] 0 targets,
    none_seen (map target_key targets),
  )
