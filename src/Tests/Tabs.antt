-- ===== src/Tests/Tabs.antt =====
-- A worktree whose second fork was closed, and an agent with one of two tabs left.
use sebenza.Base.{
  ℕ, codes, ◌≡◌, refl, none, [], arith, nat_eq, text_eq, text_beq, filter, filter_map, contains,
  pos, i32_suc, i32_of, first_free, int_beq, to_decimal, digits_from,
}
use sebenza.Worktree.{WorktreeMeta, kind_beq}
use sebenza.Tabs.{
  list_tabs, find_tab, next_fork_seq, ForkTabInput, AgentTabInput, build_fork_tab, build_agent_tab,
  append_tab, remove_tab, used_ordinals, next_agent_ordinal, free_ordinal, int_to_decimal,
  active_tab_id,
}
use sebenza.Tabs.Forks.{Reached, fresh, later, fork_tab, removed, build_fork_tab-fresh}
use sebenza.Tabs.Ordinals.{IsLeastFree, next_agent_ordinal-IsLeastFree}

abbrev no_tabs : WorktreeMeta
no_tabs = record {
  schema_version = pos 1;
  worktree_id = codes "w";
  branch = codes "b";
  label = none;
  base_branch = none;
  created_at = [];
  profile = [];
  agent = [];
  runtime = [];
  startup_env_values = [];
  allocated_ports = [];
  source = none;
  oneshot = none;
  conversation = none;
  agent_terminal_stale = none;
  tabs = none;
  active_tab_id = none;
  fork_counter = none;
}

abbrev fork_input : ℕ → ForkTabInput
fork_input n = record {
  seq = pos n;
  agent_id = codes "claude";
  session_id = none;
  pane_id = none;
  created_at = [];
}

abbrev forked : WorktreeMeta
forked = append_tab no_tabs (build_fork_tab (fork_input 1))

abbrev closed : WorktreeMeta
closed = remove_tab forked (codes "fork-1")

forked-Reached : Reached closed
forked-Reached =
    later
      (later (fresh no_tabs refl refl) (
        fork_tab no_tabs (fork_input 1) 0 refl (omega arith)
          (unfold next_fork_seq i32_suc in refl)))
      (removed forked (codes "fork-1"))

build_fork_tab-fresh_example : find_tab closed (build_fork_tab (fork_input 2)).tab_id ≡ none
unfolding append_tab remove_tab build_fork_tab next_fork_seq i32_suc active_tab_id kind_beq text_beq
    int_to_decimal to_decimal digits_from
build_fork_tab-fresh_example =
    build_fork_tab-fresh closed (fork_input 2) forked-Reached (λ n e. ground (arith, e)) refl

abbrev agent_input : ℕ → AgentTabInput
agent_input n = record {
  agent_id = codes "codex";
  agent_label = codes "Codex";
  ordinal = pos n;
  session_id = none;
  pane_id = none;
  created_at = [];
  id_suffix = codes "17";
}

abbrev one_agent : WorktreeMeta
one_agent = append_tab no_tabs (build_agent_tab (agent_input 2))

first_again : next_agent_ordinal one_agent (codes "codex") ≡ pos 1
unfolding next_agent_ordinal used_ordinals free_ordinal append_tab list_tabs build_agent_tab filter
    filter_map kind_beq text_beq contains int_beq i32_of first_free
first_again = refl

next_agent_ordinal-IsLeastFree_example :
    IsLeastFree
      (used_ordinals one_agent (codes "codex"))
      (next_agent_ordinal one_agent (codes "codex"))
unfolding append_tab list_tabs
next_agent_ordinal-IsLeastFree_example =
    next_agent_ordinal-IsLeastFree one_agent (codes "codex") (omega arith)
