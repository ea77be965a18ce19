-- ===== src/Reconcile/Services.antt =====
-- The services of a worktree: `build_service_states` of crates/common/src/services/reconciliation.rs,
-- `build_runtime_env_map` of adapters/fs.rs and `expand_template` of config.rs.
use sebenza.Base.{
  ℕ, suc, zero, Text, codes, Bool, false, Option, none, some, List, [], ◌∷◌, ◌++◌, map, nat_eq,
  text_eq, lookup, insert, split_once, to_decimal, length, unwrap_or,
}
use sebenza.Worktree.{WorktreeMeta, ServiceSpec}
use sebenza.Runtime.{ServiceRuntimeState}

-- `HashMap::extend`
unfoldable pub extend : List (Text × Text) → List (Text × Text) → List (Text × Text)
extend env [] = env
extend env ((key, value) ∷ more) = extend (insert key value env) more

unfoldable pub extend_ports : List (Text × Text) → List (Text × ℕ) → List (Text × Text)
extend_ports env [] = env
extend_ports env ((key, port) ∷ more) = extend_ports (insert key (to_decimal port) env) more

unfoldable pub build_runtime_env_map :
    WorktreeMeta → List (Text × Text) → List (Text × Text) → List (Text × Text)
build_runtime_env_map meta extra_env dotenv_values =
    let base =
      extend_ports (extend (extend [] dotenv_values) meta.startup_env_values)
        meta.allocated_ports in
    extend (extend base extra_env) (
      (codes "SEBENZA_WORKTREE_ID", meta.worktree_id)
      ∷ (codes "SEBENZA_BRANCH", meta.branch)
      ∷ (codes "SEBENZA_PROFILE", meta.profile)
      ∷ (codes "SEBENZA_AGENT", meta.agent)
      ∷ (codes "SEBENZA_RUNTIME", meta.runtime)
      ∷ [])

-- The loop of `expand_template`, which has fuel for one round more than there are characters.
unfoldable pub expand_from : ℕ → Text → List (Text × Text) → Text
expand_from zero remaining env = remaining
expand_from (suc fuel) remaining env = elim (split_once (codes "${") remaining) [
  | none ↦ remaining
  | some (before, search_range) ↦ elim (split_once (codes "}") search_range) [
    | some (var_name, after) ↦
        before ++ unwrap_or (lookup var_name env) [] ++ expand_from fuel after env
    | none ↦ before ++ codes "${" ++ expand_from fuel search_range env
  ]
]

unfoldable pub expand_template : Text → List (Text × Text) → Text
expand_template template env = expand_from (suc (length template)) template env

unfoldable pub service_url : Option ℕ → Option Text → List (Text × Text) → Option Text
service_url (some _) (some template) env = some (expand_template template env)
service_url _ _ env = none

unfoldable pub build_service_states :
    (ℕ → Bool) → List ServiceSpec → WorktreeMeta → List ServiceRuntimeState
build_service_states is_listening services meta =
    let env = build_runtime_env_map meta [] [] in
    map
      (λ service.
        let port = lookup service.port_env meta.allocated_ports in
        record {
          name = service.name;
          port = port;
          running = elim port [ none ↦ false | some p ↦ is_listening p ];
          url = service_url port service.url_template env;
        })
      services
