-- ===== src/Reconcile.antt =====
-- crates/common/src/services/reconciliation.rs, and what it takes from adapters/git.rs and adapters/fs.rs: the
-- table of worktrees is brought in line with what git, tmux and the stored metadata say. What those answer
-- during one run is the parameter `Machine`.
pub mod Services
pub mod Parts
pub mod Seen
use sebenza.Base.{
  ℕ, ℤ, ◌+◌, Text, codes, Bool, true, false, not, Option, none, some, List, [], ◌∷◌, ◌++◌, map, pos,
  ◌==◌, ◌&&◌, if◌then◌else◌, nat_eq, text_eq, ltb, or_else, is_some, find, contains, is_empty,
  unwrap_or,
}
use sebenza.Worktree.{WorktreeMeta, WorktreeTab, ServiceSpec, ui}
use sebenza.Runtime.{
  main, linked, GitWorktreeRuntimeState, ServiceRuntimeState, PrEntry, ManagedWorktreeRuntimeState,
  UpsertInput, ProjectRuntime, build_worktree_window_name, upsert_worktree, set_git_state,
  set_session_state, set_services, set_prs, remove_worktree, list_worktrees,
}
use sebenza.Reconcile.Services.{build_service_states}

pub record GitWorktreeEntry : Type 0 where
  pub path : Text
  pub branch : Option Text
  pub head : Option Text
  pub detached : Bool
  pub bare : Bool

pub record GitWorktreeStatus : Type 0 where
  pub dirty : Bool
  pub ahead_count : ℤ
  pub current_commit : Option Text

pub record TmuxWindowSummary : Type 0 where
  pub session_name : Text
  pub window_name : Text
  pub pane_count : ℤ

-- What the file system, git, tmux and the network answer. `file_name` is empty for a path without a last part.
pub record Machine : Type 0 where
  pub canonical_path : Text → Text
  pub file_name : Text → Text
  pub list_live_worktrees : Text → List GitWorktreeEntry
  pub build_project_session_name : Text → Text
  pub windows : List TmuxWindowSummary
  pub resolve_worktree_git_dir : Text → Option Text
  pub read_worktree_meta : Text → Option WorktreeMeta
  pub read_worktree_prs : Text → List PrEntry
  pub read_worktree_status : Text → GitWorktreeStatus
  pub is_listening : ℕ → Bool

-- The part of `ProjectConfig` that reconciliation reads.
pub record ReconcileConfig : Type 0 where
  pub main_branch : Text
  pub services : List ServiceSpec

unfoldable pub set_window : Text → Option TmuxWindowSummary → ProjectRuntime → ProjectRuntime
set_window id none = set_session_state id false none (pos 0)
set_window id (some w) = set_session_state id true (some w.session_name) w.pane_count

unfoldable pub git_state : Text → GitWorktreeStatus → GitWorktreeRuntimeState
git_state branch status = record {
  exists = true;
  branch = branch;
  dirty = status.dirty;
  ahead_count = status.ahead_count;
  current_commit = status.current_commit;
}

unfoldable pub make_main_worktree_id : Text → Text
make_main_worktree_id root = codes "main:" ++ root

unfoldable pub meta_tabs : Option WorktreeMeta → List WorktreeTab
meta_tabs none = []
meta_tabs (some meta) = unwrap_or meta.tabs []

unfoldable pub build_main_upsert : Text → Text → Text → Option WorktreeMeta → UpsertInput
build_main_upsert root path main_branch meta = record {
  worktree_id = make_main_worktree_id root;
  kind = main;
  branch = main_branch;
  label = elim meta [ none ↦ none | some m ↦ m.label ];
  base_branch = none;
  path = path;
  profile = none;
  agent_name = none;
  agent_terminal_stale = false;
  runtime = codes "host";
  source = ui;
  oneshot = none;
  tabs = meta_tabs meta;
  active_tab_id = elim meta [ none ↦ none | some m ↦ m.active_tab_id ];
}

-- The last loop, over the worktrees that were tracked when it began.
unfoldable pub sweep :
    List Text → List ManagedWorktreeRuntimeState → ProjectRuntime → ProjectRuntime
sweep seen [] rt = rt
sweep seen (state ∷ states) rt =
    sweep seen states
      (if contains seen state.worktree_id then rt else remove_worktree state.worktree_id rt)

module _ (machine : Machine) where
  unfoldable pub is_repo_root_entry : GitWorktreeEntry → Text → Bool
  is_repo_root_entry entry root = machine.canonical_path entry.path == root

  -- The loop over the entries; `root` is the repository's own checkout, once it was met.
  unfoldable pub split_from :
      Text
      → Option GitWorktreeEntry
      → List GitWorktreeEntry
      → Option GitWorktreeEntry × List GitWorktreeEntry
  split_from path root [] = (root, [])
  split_from path root (entry ∷ entries) =
      let skipped = split_from path root entries in
      let taken = split_from path (some entry) entries in
      if entry.bare
      then skipped
      else if not (is_some root) && is_repo_root_entry entry path
      then taken
      else (skipped.0, entry ∷ skipped.1)

  unfoldable pub split_repo_root_entry :
      List GitWorktreeEntry → Text → Option GitWorktreeEntry × List GitWorktreeEntry
  split_repo_root_entry entries path = split_from path none entries

  unfoldable pub make_unmanaged_worktree_id : Text → Text
  make_unmanaged_worktree_id path = codes "unmanaged:" ++ machine.canonical_path path

  unfoldable pub resolve_branch : GitWorktreeEntry → Option Text → Text
  resolve_branch entry meta_branch = elim (or_else entry.branch meta_branch) [
    | some branch ↦ branch
    | none ↦
        if is_empty (machine.file_name entry.path)
        then codes "unknown"
        else machine.file_name entry.path
  ]

  -- `git_dir.as_deref().and_then(read_worktree_meta)`
  unfoldable pub meta_of : Text → Option WorktreeMeta
  meta_of path = elim (machine.resolve_worktree_git_dir path) [
    | none ↦ none
    | some git_dir ↦ machine.read_worktree_meta git_dir
  ]

  unfoldable pub prs_of : Text → List PrEntry
  prs_of path = elim (machine.resolve_worktree_git_dir path) [
    | none ↦ []
    | some git_dir ↦ machine.read_worktree_prs git_dir
  ]

  unfoldable pub find_window : Text → Text → Option TmuxWindowSummary
  find_window session branch =
      find (λ w. w.session_name == session && w.window_name == build_worktree_window_name branch)
        machine.windows

  -- The writes for one worktree: its entry, then its git state, window, services and pull requests.
  unfoldable pub write_worktree :
      Text
      → UpsertInput
      → Text
      → List ServiceRuntimeState
      → List PrEntry
      → ProjectRuntime
      → ProjectRuntime
  write_worktree session input path services prs rt = set_prs input.worktree_id prs (
      set_services input.worktree_id services (
        set_window input.worktree_id (find_window session input.branch) (
          set_git_state input.worktree_id
            (git_state input.branch (machine.read_worktree_status path))
            (upsert_worktree input rt))))

  unfoldable pub candidate_id : GitWorktreeEntry → Text
  candidate_id entry = elim (meta_of entry.path) [
    | some meta ↦ meta.worktree_id
    | none ↦ make_unmanaged_worktree_id entry.path
  ]

  -- What a linked worktree is entered with, from its metadata where it has some.
  unfoldable pub candidate_input : GitWorktreeEntry → UpsertInput
  candidate_input entry = elim (meta_of entry.path) [
    | some meta ↦ record {
      worktree_id = meta.worktree_id;
      kind = linked;
      branch = resolve_branch entry (some meta.branch);
      label = meta.label;
      base_branch = meta.base_branch;
      path = entry.path;
      profile = some meta.profile;
      agent_name = some meta.agent;
      agent_terminal_stale = unwrap_or meta.agent_terminal_stale false;
      runtime = meta.runtime;
      source = unwrap_or meta.source ui;
      oneshot = meta.oneshot;
      tabs = unwrap_or meta.tabs [];
      active_tab_id = meta.active_tab_id;
    }
    | none ↦ record {
      worktree_id = make_unmanaged_worktree_id entry.path;
      kind = linked;
      branch = resolve_branch entry none;
      label = none;
      base_branch = none;
      path = entry.path;
      profile = none;
      agent_name = none;
      agent_terminal_stale = false;
      runtime = codes "host";
      source = ui;
      oneshot = none;
      tabs = [];
      active_tab_id = none;
    }
  ]

  -- The ids that were met.
  unfoldable pub seen_ids : Text → Option GitWorktreeEntry × List GitWorktreeEntry → List Text
  seen_ids root (none, candidates) = map candidate_id candidates
  seen_ids root (some _, candidates) = make_main_worktree_id root ∷ map candidate_id candidates

  module _ (config : ReconcileConfig) where
    unfoldable pub enter_root : Text → GitWorktreeEntry → ProjectRuntime → ProjectRuntime
    enter_root root entry =
        write_worktree (machine.build_project_session_name root)
          (build_main_upsert root entry.path config.main_branch (meta_of entry.path)) entry.path []
          []

    unfoldable pub candidate_services : GitWorktreeEntry → List ServiceRuntimeState
    candidate_services entry = elim (meta_of entry.path) [
      | some meta ↦ build_service_states machine.is_listening config.services meta
      | none ↦ []
    ]

    unfoldable pub enter_candidate : Text → GitWorktreeEntry → ProjectRuntime → ProjectRuntime
    enter_candidate root entry =
        write_worktree (machine.build_project_session_name root) (candidate_input entry) entry.path
          (candidate_services entry) (prs_of entry.path)

    unfoldable pub enter_candidates : Text → List GitWorktreeEntry → ProjectRuntime → ProjectRuntime
    enter_candidates root [] rt = rt
    enter_candidates root (entry ∷ entries) rt =
        enter_candidates root entries (enter_candidate root entry rt)

    unfoldable pub enter_roots : Text → Option GitWorktreeEntry → ProjectRuntime → ProjectRuntime
    enter_roots root none rt = rt
    enter_roots root (some entry) rt = enter_root root entry rt

    unfoldable pub run_reconcile : Text → ProjectRuntime → ProjectRuntime
    run_reconcile root rt =
        let entries = split_repo_root_entry (machine.list_live_worktrees root) root in
        let entered = enter_candidates root entries.1 (enter_roots root entries.0 rt) in
        sweep (seen_ids root entries) (list_worktrees entered) entered

    -- `reconcile`: at most once in half a second, unless it is forced. Times are milliseconds; the run takes
    -- until `after`.
    unfoldable pub reconcile :
        Text → Bool → (now after : ℕ) → Option ℕ → ProjectRuntime → Option ℕ × ProjectRuntime
    reconcile repo_root force now after last rt =
        let ran : Option ℕ × ProjectRuntime =
          (some after, run_reconcile (machine.canonical_path repo_root) rt) in
        elim last [
          | none ↦ ran
          | some instant ↦ if not force && ltb now (instant + 500) then (some instant, rt) else ran
        ]
