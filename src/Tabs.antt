-- ===== src/Tabs.antt =====
-- crates/common/src/services/tab_logic.rs: the tabs of a worktree. Numbers of the type i32 wrap.
pub mod Forks
pub mod Ordinals
use sebenza.Base.{
  int_leb, ℕ, zero, suc, ◌+◌, ◌-◌, ◌*◌, ◌/◌, ◌%◌, ◌^◌, ◌≤◌, ◌<◌, max, Text, codes, ◌≡◌, ◌≢◌, refl,
  sym, ap, ◌∙◌, subst, ◌↔◌, ◌⊎◌, inl, inr, Bool, true, false, not, ◌&&◌, ◌||◌, Option, none, some,
  List, [], ◌∷◌, ◌++◌, map, append-nil, append_assoc, arith, Eq, ◌==◌, nat_eq, text_eq, text_beq,
  text_beq_iff, text_beq_refl, nat_beq_iff, ltb, leb, if◌then◌else◌, unwrap_or, is_some, or_else,
  is_some_and, keep_if, all, any, find, filter, filter_map, find_map, contains, length, take,
  lookup, insert, remove, is_empty, is_blank, trim, Bool-cases, Option-cases, All, ℤ, pos, negsuc,
  to_decimal, i32_suc, i32_of, int_eq, first_free,
}
use sebenza.Worktree.{
  WorktreeMeta, WorktreeTab, WorktreeTabKind, root, fork, agent, kind_eq, root_tab_id,
}

unfoldable pub list_tabs : WorktreeMeta → List WorktreeTab
list_tabs meta = unwrap_or meta.tabs []

unfoldable pub find_tab : WorktreeMeta → Text → Option WorktreeTab
unfolding list_tabs
find_tab meta id = find (λ tab. tab.tab_id == id) (list_tabs meta)

abbrev pub first_tab : List WorktreeTab → Option WorktreeTab
first_tab [] = none
first_tab (tab ∷ tabs) = some tab

unfoldable pub root_tab : WorktreeMeta → Option WorktreeTab
unfolding list_tabs
root_tab meta =
    or_else (find (λ tab. tab.kind == root) (list_tabs meta)) (first_tab (list_tabs meta))

unfoldable pub active_tab_id : WorktreeMeta → Text
active_tab_id meta = unwrap_or meta.active_tab_id root_tab_id

unfoldable pub next_fork_seq : WorktreeMeta → ℤ
unfolding i32_suc
next_fork_seq meta = i32_suc (unwrap_or meta.fork_counter (pos 0))

-- `format!("{n}")` of an i32
unfoldable pub int_to_decimal : ℤ → Text
int_to_decimal (pos n) = to_decimal n
int_to_decimal (negsuc n) = b'-' ∷ to_decimal (n + 1)

pub record ForkTabInput : Type 0 where
  pub seq : ℤ
  pub agent_id : Text
  pub session_id : Option Text
  pub pane_id : Option Text
  pub created_at : Text

unfoldable pub build_fork_tab : ForkTabInput → WorktreeTab
build_fork_tab input = record {
  tab_id = codes "fork-" ++ int_to_decimal input.seq;
  kind = fork;
  label = codes "Fork " ++ int_to_decimal input.seq;
  seq = some input.seq;
  session_id = input.session_id;
  pane_id = input.pane_id;
  agent = some input.agent_id;
  created_at = input.created_at;
}

pub record AgentTabInput : Type 0 where
  pub agent_id : Text
  pub agent_label : Text
  pub ordinal : ℤ
  pub session_id : Option Text
  pub pane_id : Option Text
  pub created_at : Text
  pub id_suffix : Text

unfoldable pub build_agent_tab : AgentTabInput → WorktreeTab
build_agent_tab input = record {
  tab_id = codes "agent-" ++ (input.agent_id ++ (codes "-" ++ input.id_suffix));
  kind = agent;
  label =
      if int_leb input.ordinal (pos 1)
      then input.agent_label
      else input.agent_label ++ (codes " " ++ int_to_decimal input.ordinal);
  seq = some input.ordinal;
  session_id = input.session_id;
  pane_id = input.pane_id;
  agent = some input.agent_id;
  created_at = input.created_at;
}

abbrev pub is_agent_tab_of : Text → WorktreeTab → Bool
is_agent_tab_of agent_id tab = tab.kind == agent && is_some_and tab.agent (λ a. a == agent_id)

unfoldable pub used_ordinals : WorktreeMeta → Text → List ℤ
used_ordinals meta agent_id =
    filter_map (λ tab. tab.seq) (filter (is_agent_tab_of agent_id) (list_tabs meta))

-- The loop from 1, with fuel for one round more than there are ordinals in use.
unfoldable pub free_ordinal : List ℤ → ℤ
free_ordinal used = i32_of (first_free (λ n. contains used (i32_of n)) (suc (length used)) 1)

unfoldable pub next_agent_ordinal : WorktreeMeta → Text → ℤ
unfolding used_ordinals free_ordinal
next_agent_ordinal meta agent_id = free_ordinal (used_ordinals meta agent_id)

unfoldable pub tab_agent_id : WorktreeTab → WorktreeMeta → Text
tab_agent_id tab meta = unwrap_or tab.agent meta.agent

unfoldable pub append_tab : WorktreeMeta → WorktreeTab → WorktreeMeta
append_tab meta tab =
    let counter =
      if tab.kind == fork then or_else tab.seq meta.fork_counter else meta.fork_counter in
    record meta {
      tabs = some (list_tabs meta ++ tab ∷ []);
      fork_counter = some (unwrap_or counter (pos 0));
      active_tab_id = some tab.tab_id;
    }

unfoldable pub remove_tab : WorktreeMeta → Text → WorktreeMeta
remove_tab meta id =
    let tabs = some (filter (λ tab. not (tab.tab_id == id)) (list_tabs meta)) in
    if active_tab_id meta == id
    then record meta { tabs = tabs; active_tab_id = some root_tab_id }
    else record meta { tabs = tabs }

pub record TabPatch : Type 0 where
  pub session_id : Option (Option Text)
  pub pane_id : Option (Option Text)

unfoldable pub patch_tab : Text → TabPatch → WorktreeTab → WorktreeTab
patch_tab id patch tab =
    if tab.tab_id == id
    then record tab {
      session_id = unwrap_or patch.session_id tab.session_id;
      pane_id = unwrap_or patch.pane_id tab.pane_id;
    }
    else tab

unfoldable pub update_tab : WorktreeMeta → Text → TabPatch → WorktreeMeta
update_tab meta id patch = record meta { tabs = some (map (patch_tab id patch) (list_tabs meta)) }

unfoldable pub set_active_tab : WorktreeMeta → Text → WorktreeMeta
set_active_tab meta id = record meta { active_tab_id = some id }

unfoldable pub with_tabs : WorktreeMeta → List WorktreeTab → WorktreeMeta
with_tabs meta tabs = record meta { tabs = some tabs }
