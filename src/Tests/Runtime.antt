-- ===== src/Tests/Runtime.antt =====
-- A table with two worktrees, a reconciliation, and the watcher of a run.
use sebenza.Base.{
  ◌&&◌, not, strip_prefix, split_once, Text, codes, ◌≡◌, refl, true, false, none, some, [], ◌∷◌,
  ◌++◌, arith, nat_eq, text_eq, text_beq, if◌then◌else◌, unwrap_or, is_some, find, contains, lookup,
  insert, remove, pos,
}
use sebenza.Worktree.{WorktreeMeta, ui}
use sebenza.Runtime.{
  set_git_state, set_session_state, modify_worktree, list_worktrees, sort_by_branch,
  insert_by_branch, set_services, set_prs, make_default_state, ProjectRuntime, UpsertInput, linked,
  new_runtime, upsert_worktree, remove_worktree, get_worktree_by_branch, idle, text_leb,
}
use sebenza.Runtime.Aligned.{
  Reached, new, next, upserted, removed, IsAlignedRuntime, Reached-IsAlignedRuntime,
}
use sebenza.Runtime.Stale.{remove_worktree-lost}
use sebenza.Reconcile.{
  set_window, candidate_input, candidate_id, meta_of, make_unmanaged_worktree_id, resolve_branch,
  find_window, sweep, git_state, prs_of, candidate_services, write_worktree, enter_roots,
  enter_candidate, enter_candidates, is_repo_root_entry, split_from, Machine, ReconcileConfig,
  run_reconcile, seen_ids, split_repo_root_entry,
}
use sebenza.Reconcile.Services.{expand_from, expand_template}
use sebenza.Reconcile.Parts.{part_at, fresh_part}
use sebenza.Reconcile.Seen.{run_reconcile-parts}
use sebenza.Oneshot.{begin_watch}
use sebenza.Oneshot.Grace.{
  WatchStep, passed, watch_after, says_armed, is_ending, is_over, quiet_from, has_settled, is_quiet,
  begin_watch-fires,
}

abbrev input_of : Text → Text → UpsertInput
input_of id branch = record {
  worktree_id = id;
  kind = linked;
  branch = branch;
  label = none;
  base_branch = none;
  path = codes "/w/" ++ branch;
  profile = none;
  agent_name = none;
  agent_terminal_stale = false;
  runtime = codes "host";
  source = ui;
  oneshot = none;
  tabs = [];
  active_tab_id = none;
}

abbrev one_tracked : ProjectRuntime
one_tracked = upsert_worktree (input_of (codes "w1") (codes "a")) new_runtime

abbrev one_reached : Reached one_tracked
one_reached = next new (upserted (input_of (codes "w1") (codes "a")) new_runtime)

Reached-IsAlignedRuntime_example : IsAlignedRuntime (remove_worktree (codes "w1") one_tracked)
Reached-IsAlignedRuntime_example =
    Reached-IsAlignedRuntime (remove_worktree (codes "w1") one_tracked)
      (next one_reached (removed (codes "w1") one_tracked))

remove_worktree-lost_example :
    (is_some (
        get_worktree_by_branch
          (codes "a")
          (upsert_worktree (input_of (codes "w2") (codes "a")) one_tracked))
      ≡ true)
    × (get_worktree_by_branch (codes "a") (
          remove_worktree
            (codes "w1")
            (upsert_worktree (input_of (codes "w2") (codes "a")) one_tracked))
        ≡ none)
    × (is_some (
          lookup
            (codes "w2")
            (remove_worktree
              (codes "w1")
              (upsert_worktree (input_of (codes "w2") (codes "a")) one_tracked)).worktrees)
        ≡ true)
remove_worktree-lost_example =
    remove_worktree-lost (input_of (codes "w2") (codes "a")) (codes "w1") one_tracked
      {state = make_default_state (input_of (codes "w1") (codes "a"))} (ground arith)
      (unfold upsert_worktree lookup insert text_beq in refl) (unfold make_default_state in refl)

-- A machine whose git lists one worktree without metadata.
abbrev machine : Machine
machine = record {
  canonical_path = λ path. path;
  file_name = λ path. path;
  list_live_worktrees = λ _.
      record {
        path = codes "/w/b";
        branch = some (codes "b");
        head = none;
        detached = false;
        bare = false;
      }
      ∷ [];
  build_project_session_name = λ _. codes "s";
  windows = [];
  resolve_worktree_git_dir = λ _. none;
  read_worktree_meta = λ _. none;
  read_worktree_prs = λ _. [];
  read_worktree_status = λ _. record { dirty = false; ahead_count = pos 0; current_commit = none };
  is_listening = λ _. false;
}

abbrev config : ReconcileConfig
config = record { main_branch = codes "main"; services = [] }

run_reconcile-parts_example :
    ((id : Text)
      → part_at id (run_reconcile machine config (codes "/r") one_tracked) ≡ (
          if contains
            (seen_ids machine (codes "/r") (
              split_repo_root_entry machine
                (machine.list_live_worktrees (codes "/r"))
                (codes "/r")))
            id
          then some (unwrap_or (part_at id one_tracked) fresh_part)
          else none))
    × Reached (run_reconcile machine config (codes "/r") one_tracked)
run_reconcile-parts_example =
    run_reconcile-parts machine config (codes "/r") one_tracked one_reached

-- The worktree that git does not list is gone, and the one that it lists is found.
reconcile_test :
    (is_some
        (get_worktree_by_branch (codes "a") (run_reconcile machine config (codes "/r") one_tracked))
      ≡ false)
    × (is_some (
          get_worktree_by_branch
            (codes "b")
            (run_reconcile machine config (codes "/r") one_tracked))
        ≡ true)
unfolding get_worktree_by_branch run_reconcile split_repo_root_entry split_from is_repo_root_entry
    enter_candidates enter_candidate enter_roots write_worktree upsert_worktree set_prs set_services
    set_git_state set_window set_session_state modify_worktree candidate_input candidate_id meta_of
    make_unmanaged_worktree_id resolve_branch find_window sweep list_worktrees sort_by_branch
    insert_by_branch text_leb make_default_state remove_worktree seen_ids lookup insert remove
    contains text_beq git_state find prs_of candidate_services
reconcile_test = (refl, refl)

expand_template_test :
    expand_template (codes "http://h:${P}/${X}") ((codes "P", codes "80") ∷ [])
    ≡ codes "http://h:80/"
unfolding expand_template expand_from split_once strip_prefix lookup text_beq
expand_template_test = refl

abbrev armed_meta : WorktreeMeta
armed_meta = record {
  schema_version = pos 1;
  worktree_id = codes "w";
  branch = codes "b";
  label = none;
  base_branch = none;
  created_at = codes "t";
  profile = codes "p";
  agent = codes "a";
  runtime = codes "host";
  startup_env_values = [];
  allocated_ports = [];
  source = none;
  oneshot = some (record { auto_close_on_done = true });
  conversation = none;
  agent_terminal_stale = none;
  tabs = none;
  active_tab_id = none;
  fork_counter = none;
}

abbrev quiet_pass : WatchStep
quiet_pass = passed (some armed_meta) (codes "b") idle false 1000

begin_watch-fires_example :
    (begin_watch (some armed_meta) (codes "b") idle false 16000 (watch_after (quiet_pass ∷ []))).0
    ≡ (says_armed (some armed_meta)
        && not (is_ending (codes "b") (quiet_pass ∷ []))
        && is_over idle (quiet_from (codes "b") (quiet_pass ∷ [])) 16000)
begin_watch-fires_example =
    begin_watch-fires (quiet_pass ∷ []) (some armed_meta) (codes "b") idle false 16000

run-ended :
    (begin_watch (some armed_meta) (codes "b") idle false 16000 (watch_after (quiet_pass ∷ []))).0
    ≡ true
unfolding says_armed is_ending is_over quiet_from has_settled is_quiet text_beq
run-ended = begin_watch-fires_example

run-kept :
    (begin_watch (some armed_meta) (codes "b") idle false 15999 (watch_after (quiet_pass ∷ []))).0
    ≡ false
unfolding says_armed is_ending is_over quiet_from has_settled is_quiet text_beq
run-kept = begin_watch-fires (quiet_pass ∷ []) (some armed_meta) (codes "b") idle false 15999
