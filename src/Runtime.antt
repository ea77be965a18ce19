-- ===== src/Runtime.antt =====
-- crates/common/src/services/project_runtime.rs, and the types it keeps from domain/model.rs: the table of the
-- worktrees that a project tracks, and the index from a branch to the id of its worktree. A `HashMap` is an
-- association list, and a method that changes the table returns the new one.
pub mod Feed
pub mod Indexed
pub mod Aligned
pub mod Stale
use sebenza.Base.{
  ℕ, ℤ, Text, codes, Bool, true, false, Option, none, some, List, [], ◌∷◌, ◌++◌, map, pos, ◌==◌,
  if◌then◌else◌, nat_eq, text_eq, ltb, or_else, lookup, insert, remove,
}
use sebenza.Worktree.{WorktreeTab, WorktreeSource, OneshotMeta}

pub data AgentLifecycle : Type 0 where
  closed starting running idle awaiting_permission stopped error : AgentLifecycle

-- `AgentFeedbackState`, with `no_feedback` for its `None`.
pub data AgentFeedbackState : Type 0 where
  no_feedback permission_request user_question : AgentFeedbackState

unfoldable pub feedback_name : AgentFeedbackState → Text
feedback_name no_feedback = codes "none"
feedback_name permission_request = codes "permission_request"
feedback_name user_question = codes "user_question"

pub record GitWorktreeRuntimeState : Type 0 where
  pub exists : Bool
  pub branch : Text
  pub dirty : Bool
  pub ahead_count : ℤ
  pub current_commit : Option Text

pub record SessionRuntimeState : Type 0 where
  pub exists : Bool
  pub session_name : Option Text
  pub window_name : Text
  pub pane_count : ℤ

pub record AgentRuntimeState : Type 0 where
  pub runtime : Text
  pub lifecycle : AgentLifecycle
  pub feedback_state : AgentFeedbackState
  pub last_started_at : Option Text
  pub last_event_at : Option Text
  pub last_error : Option Text

pub record ServiceRuntimeState : Type 0 where
  pub name : Text
  pub port : Option ℕ
  pub running : Bool
  pub url : Option Text

pub record PrComment : Type 0 where
  pub kind : Text
  pub author : Text
  pub body : Text
  pub created_at : Text
  pub path : Option Text
  pub line : Option ℤ
  pub diff_hunk : Option Text
  pub is_reply : Option Bool

pub record CiCheck : Type 0 where
  pub name : Text
  pub status : Text
  pub url : Option Text
  pub run_id : Option ℤ

pub record PrEntry : Type 0 where
  pub repo : Text
  pub number : ℤ
  pub state : Text
  pub url : Text
  pub updated_at : Text
  pub ci_status : Text
  pub ci_checks : List CiCheck
  pub comments : List PrComment

pub data WorktreeKind : Type 0 where
  main linked : WorktreeKind

pub record ManagedWorktreeRuntimeState : Type 0 where
  pub worktree_id : Text
  pub kind : WorktreeKind
  pub branch : Text
  pub label : Option Text
  pub base_branch : Option Text
  pub path : Text
  pub profile : Option Text
  pub agent_name : Option Text
  pub source : WorktreeSource
  pub oneshot : Option OneshotMeta
  pub agent_terminal_stale : Bool
  pub tabs : List WorktreeTab
  pub active_tab_id : Option Text
  pub git : GitWorktreeRuntimeState
  pub session : SessionRuntimeState
  pub agent : AgentRuntimeState
  pub services : List ServiceRuntimeState
  pub prs : List PrEntry
  pub reported_session_id : Option Text

pub record UpsertInput : Type 0 where
  pub worktree_id : Text
  pub kind : WorktreeKind
  pub branch : Text
  pub label : Option Text
  pub base_branch : Option Text
  pub path : Text
  pub profile : Option Text
  pub agent_name : Option Text
  pub agent_terminal_stale : Bool
  pub runtime : Text
  pub source : WorktreeSource
  pub oneshot : Option OneshotMeta
  pub tabs : List WorktreeTab
  pub active_tab_id : Option Text

pub record ProjectRuntime : Type 0 where
  pub worktrees : List (Text × ManagedWorktreeRuntimeState)
  pub worktree_ids_by_branch : List (Text × Text)

abbrev pub new_runtime : ProjectRuntime
new_runtime = record { worktrees = []; worktree_ids_by_branch = [] }

-- crates/common/src/adapters/tmux.rs
unfoldable pub build_worktree_window_name : Text → Text
build_worktree_window_name branch = codes "sebenza-" ++ branch

unfoldable pub make_default_state : UpsertInput → ManagedWorktreeRuntimeState
make_default_state input = record {
  worktree_id = input.worktree_id;
  kind = input.kind;
  branch = input.branch;
  label = input.label;
  base_branch = input.base_branch;
  path = input.path;
  profile = input.profile;
  agent_name = input.agent_name;
  source = input.source;
  oneshot = input.oneshot;
  agent_terminal_stale = input.agent_terminal_stale;
  tabs = input.tabs;
  active_tab_id = input.active_tab_id;
  git = record {
    exists = true;
    branch = input.branch;
    dirty = false;
    ahead_count = pos 0;
    current_commit = none;
  };
  session = record {
    exists = false;
    session_name = none;
    window_name = build_worktree_window_name input.branch;
    pane_count = pos 0;
  };
  agent = record {
    runtime = input.runtime;
    lifecycle = closed;
    feedback_state = no_feedback;
    last_started_at = none;
    last_event_at = none;
    last_error = none;
  };
  services = [];
  prs = [];
  reported_session_id = none;
}

-- What `upsert_worktree` writes over a worktree that is tracked.
unfoldable pub refreshed : UpsertInput → ManagedWorktreeRuntimeState → ManagedWorktreeRuntimeState
refreshed input existing = record existing {
  path = input.path;
  kind = input.kind;
  branch = input.branch;
  label = input.label;
  base_branch = input.base_branch;
  profile = or_else input.profile existing.profile;
  agent_name = or_else input.agent_name existing.agent_name;
  agent_terminal_stale = input.agent_terminal_stale;
  agent = record existing.agent { runtime = input.runtime };
  source = input.source;
  oneshot = input.oneshot;
  tabs = input.tabs;
  active_tab_id = input.active_tab_id;
  git = record existing.git { exists = true; branch = input.branch };
  session = record existing.session { window_name = build_worktree_window_name input.branch };
}

-- The index without the branch that a worktree had, when its new one differs.
unfoldable pub drop_renamed : Text → Text → List (Text × Text) → List (Text × Text)
drop_renamed before after index = if before == after then index else remove before index

unfoldable pub upsert_worktree : UpsertInput → ProjectRuntime → ProjectRuntime
upsert_worktree input rt = elim (lookup input.worktree_id rt.worktrees) [
  | some existing ↦ record {
    worktrees = insert input.worktree_id (refreshed input existing) rt.worktrees;
    worktree_ids_by_branch =
        insert input.branch input.worktree_id
          (drop_renamed existing.branch input.branch rt.worktree_ids_by_branch);
  }
  | none ↦ record {
    worktrees = insert input.worktree_id (make_default_state input) rt.worktrees;
    worktree_ids_by_branch = insert input.branch input.worktree_id rt.worktree_ids_by_branch;
  }
]

-- `if let Some(state) = self.worktrees.get_mut(worktree_id)`
unfoldable pub modify_worktree :
    Text
    → (ManagedWorktreeRuntimeState → ManagedWorktreeRuntimeState)
    → ProjectRuntime
    → ProjectRuntime
modify_worktree id change rt = elim (lookup id rt.worktrees) [
  | some state ↦ record rt { worktrees = insert id (change state) rt.worktrees }
  | none ↦ rt
]

unfoldable pub set_git_state : Text → GitWorktreeRuntimeState → ProjectRuntime → ProjectRuntime
set_git_state id patch =
    modify_worktree id (λ state. record state { git = record patch { branch = state.branch } })

unfoldable pub set_session_state : Text → Bool → Option Text → ℤ → ProjectRuntime → ProjectRuntime
set_session_state id exists session_name pane_count = modify_worktree id (λ state. record state {
  session = record {
    exists = exists;
    session_name = session_name;
    window_name = build_worktree_window_name state.branch;
    pane_count = pane_count;
  };
})

unfoldable pub set_services : Text → List ServiceRuntimeState → ProjectRuntime → ProjectRuntime
set_services id services = modify_worktree id (λ state. record state { services = services })

unfoldable pub set_prs : Text → List PrEntry → ProjectRuntime → ProjectRuntime
set_prs id prs = modify_worktree id (λ state. record state { prs = prs })

unfoldable pub set_oneshot : Text → Option OneshotMeta → ProjectRuntime → ProjectRuntime
set_oneshot id oneshot = modify_worktree id (λ state. record state { oneshot = oneshot })

unfoldable pub remove_worktree : Text → ProjectRuntime → ProjectRuntime
remove_worktree id rt = elim (lookup id rt.worktrees) [
  | some state ↦ record {
    worktrees = remove id rt.worktrees;
    worktree_ids_by_branch = remove state.branch rt.worktree_ids_by_branch;
  }
  | none ↦ rt
]

unfoldable pub get_worktree_by_branch : Text → ProjectRuntime → Option ManagedWorktreeRuntimeState
get_worktree_by_branch branch rt = elim (lookup branch rt.worktree_ids_by_branch) [
  | none ↦ none
  | some id ↦ lookup id rt.worktrees
]

-- The order of `String`: that of the bytes, which for UTF-8 is that of the code points.
unfoldable pub text_leb : Text → Text → Bool
text_leb [] t = true
text_leb (a ∷ s) [] = false
text_leb (a ∷ s) (b ∷ t) =
    let rest = text_leb s t in if ltb a b then true else if a == b then rest else false

unfoldable pub insert_by_branch :
    ManagedWorktreeRuntimeState
    → List ManagedWorktreeRuntimeState
    → List ManagedWorktreeRuntimeState
insert_by_branch state [] = state ∷ []
insert_by_branch state (next ∷ rest) =
    let later = insert_by_branch state rest in
    if text_leb state.branch next.branch then state ∷ next ∷ rest else next ∷ later

unfoldable pub sort_by_branch : List ManagedWorktreeRuntimeState → List ManagedWorktreeRuntimeState
sort_by_branch [] = []
sort_by_branch (state ∷ states) = insert_by_branch state (sort_by_branch states)

unfoldable pub list_worktrees : ProjectRuntime → List ManagedWorktreeRuntimeState
list_worktrees rt = sort_by_branch (map (λ entry. entry.1) rt.worktrees)
