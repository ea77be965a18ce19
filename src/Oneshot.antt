-- ===== src/Oneshot.antt =====
-- crates/sebenza-server/src/services/oneshot_watcher_service.rs: the watcher that ends a oneshot run when its
-- agent has settled. A pass over one worktree is in two parts, up to the moment it holds the run as in flight
-- and from there, since other passes may come between. What is read of the metadata is an argument of each.
pub mod Grace
use sebenza.Base.{
  ℕ, ◌-◌, Text, codes, Bool, true, false, not, Option, none, some, List, [], ◌∷◌, ◌++◌, ◌==◌, ◌&&◌,
  ◌||◌, if◌then◌else◌, nat_eq, text_eq, leb, lookup, insert, remove, is_empty, unwrap_or, is_some,
}
use sebenza.Worktree.{WorktreeMeta, WorktreeSource, ui, oneshot}
use sebenza.Runtime.{
  AgentLifecycle, closed, starting, running, idle, awaiting_permission, stopped, error,
  WorktreeKind, main, linked, ManagedWorktreeRuntimeState, ProjectRuntime, get_worktree_by_branch,
  set_oneshot, list_worktrees,
}

abbrev pub idle_grace_ms : ℕ
idle_grace_ms = 15000

pub record WatchState : Type 0 where
  pub idle_since_ms : Option ℕ
  pub in_flight : Bool

pub data OneshotDecision : Type 0 where
  wait : Option ℕ → OneshotDecision
  fire : Text → OneshotDecision

unfoldable pub lifecycle_label : AgentLifecycle → Text
lifecycle_label stopped = codes "stopped"
lifecycle_label error = codes "error"
lifecycle_label idle = codes "idle"
lifecycle_label closed = codes "closed"
lifecycle_label running = codes "running"
lifecycle_label starting = codes "starting"
lifecycle_label awaiting_permission = codes "awaiting permission"

unfoldable pub is_terminal_lifecycle : AgentLifecycle → Bool
is_terminal_lifecycle stopped = true
is_terminal_lifecycle error = true
is_terminal_lifecycle _ = false

unfoldable pub needs_grace : AgentLifecycle → Bool
needs_grace idle = true
needs_grace closed = true
needs_grace _ = false

unfoldable pub fire_reason : AgentLifecycle → Bool → Text
fire_reason stopped has_pr = codes "agent " ++ lifecycle_label stopped
fire_reason error has_pr = codes "agent " ++ lifecycle_label error
fire_reason closed has_pr = codes "agent closed without resuming"
fire_reason _ has_pr =
    if has_pr then codes "agent idle after opening PR" else codes "agent idle without opening a PR"

unfoldable pub decide : AgentLifecycle → Bool → Option ℕ → (now_ms grace : ℕ) → OneshotDecision
decide lifecycle has_pr idle_since_ms now_ms grace =
    let idle_since = unwrap_or idle_since_ms now_ms in
    if not (is_terminal_lifecycle lifecycle) && not (needs_grace lifecycle)
    then wait none
    else if is_terminal_lifecycle lifecycle || leb grace (now_ms - idle_since)
    then fire (fire_reason lifecycle has_pr)
    else wait (some idle_since)

abbrev pub WatchStates : Type 0
WatchStates = List (Text × WatchState)

-- `entry(branch).or_default()`
unfoldable pub state_of : Text → WatchStates → WatchState
state_of branch states =
    unwrap_or (lookup branch states) (record { idle_since_ms = none; in_flight = false })

-- Whether the metadata says that the run is armed.
unfoldable pub is_armed : Option WorktreeMeta → Bool
is_armed none = false
is_armed (some meta) = is_some meta.oneshot

-- The first part of `process_worktree`, and whether it goes on to fire.
unfoldable pub begin_watch :
    Option WorktreeMeta → Text → AgentLifecycle → Bool → ℕ → WatchStates → Bool × WatchStates
begin_watch meta branch lifecycle has_pr now states =
    if not (is_armed meta)
    then (false, remove branch states)
    else let state = state_of branch states in
      if state.in_flight
      then (false, insert branch state states)
      else elim (decide lifecycle has_pr state.idle_since_ms now idle_grace_ms) [
        | wait idle_since ↦
            (false, insert branch (record { idle_since_ms = idle_since; in_flight = false }) states)
        | fire reason ↦ (true, insert branch (record state { in_flight = true }) states)
      ]

-- What the watcher asks of the lifecycle service.
pub data WatchAction : Type 0 where
  close_worktree disarm_oneshot : Text → WatchAction

unfoldable pub auto_close : Option WorktreeMeta → Bool
auto_close none = false
auto_close (some meta) = elim meta.oneshot [ none ↦ false | some o ↦ o.auto_close_on_done ]

unfoldable pub mirror_disarm : Text → ProjectRuntime → ProjectRuntime
mirror_disarm branch rt = elim (get_worktree_by_branch branch rt) [
  | none ↦ rt
  | some worktree ↦ set_oneshot worktree.worktree_id none rt
]

-- The second part, with the metadata as it was read first and as it is read just before the close.
unfoldable pub end_watch :
    (first again : Option WorktreeMeta)
    → Text
    → WatchStates
    → ProjectRuntime
    → List WatchAction × WatchStates × ProjectRuntime
end_watch first again branch states rt =
    if auto_close first && not (is_armed again) then ([], remove branch states, rt) else (
      (if auto_close first then close_worktree branch ∷ [] else []) ++ disarm_oneshot branch ∷ [],
      remove branch states,
      mirror_disarm branch rt,
    )

-- The worktrees that `run_oneshot_watch` processes.
unfoldable pub is_watched : ManagedWorktreeRuntimeState → Bool
is_watched worktree = is_oneshot worktree.source && not (is_main worktree.kind)
  where
    is_oneshot : WorktreeSource → Bool
    is_oneshot oneshot = true
    is_oneshot ui = false

    is_main : WorktreeKind → Bool
    is_main main = true
    is_main linked = false
