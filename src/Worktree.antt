-- ===== src/Worktree.antt =====
-- crates/common/src/domain/model.rs and domain/config.rs: what is stored of a worktree, its tabs, and the
-- services of a project. Numbers of the type i32 are integers in its range.
use sebenza.Base.{ℕ, ℤ, Text, codes, Bool, true, false, Option, List, Eq, ◌≡◌, ◌↔◌, arith, nat_eq}

pub data WorktreeConversationMeta : Type 0 where
  -- conversation_id, cwd, last_seen_at, and the thread's or the session's id
  codex claude grok opencode : Text → Text → Text → Text → WorktreeConversationMeta

unfoldable pub conversation_session_id : WorktreeConversationMeta → Text
conversation_session_id (codex _ _ _ thread) = thread
conversation_session_id (claude _ _ _ session) = session
conversation_session_id (grok _ _ _ session) = session
conversation_session_id (opencode _ _ _ session) = session

pub data WorktreeTabKind : Type 0 where
  root fork shell agent : WorktreeTabKind

pub record WorktreeTab : Type 0 where
  pub tab_id : Text
  pub kind : WorktreeTabKind
  pub label : Text
  pub seq : Option ℤ
  pub session_id : Option Text
  pub pane_id : Option Text
  pub agent : Option Text
  pub created_at : Text

pub data WorktreeSource : Type 0 where
  ui oneshot : WorktreeSource

pub record OneshotMeta : Type 0 where
  pub auto_close_on_done : Bool

pub record WorktreeMeta : Type 0 where
  pub schema_version : ℤ
  pub worktree_id : Text
  pub branch : Text
  pub label : Option Text
  pub base_branch : Option Text
  pub created_at : Text
  pub profile : Text
  pub agent : Text
  pub runtime : Text
  pub startup_env_values : List (Text × Text)
  pub allocated_ports : List (Text × ℕ)
  pub source : Option WorktreeSource
  pub oneshot : Option OneshotMeta
  pub conversation : Option WorktreeConversationMeta
  pub agent_terminal_stale : Option Bool
  pub tabs : Option (List WorktreeTab)
  pub active_tab_id : Option Text
  pub fork_counter : Option ℤ

pub record ServiceSpec : Type 0 where
  pub name : Text
  pub port_env : Text
  pub port_start : Option ℕ
  pub port_step : Option ℕ
  pub url_template : Option Text

abbrev pub root_tab_id : Text
root_tab_id = codes "root"

unfoldable pub kind_beq : WorktreeTabKind → WorktreeTabKind → Bool
kind_beq root root = true
kind_beq fork fork = true
kind_beq shell shell = true
kind_beq agent agent = true
kind_beq _ _ = false

pub kind_beq_iff : (a b : WorktreeTabKind) → (kind_beq a b ≡ true) ↔ (a ≡ b)
unfolding kind_beq
kind_beq_iff a b = ground arith

instance abbrev pub kind_eq : Eq WorktreeTabKind
kind_eq = record { beq = kind_beq; beq_iff = kind_beq_iff }
