-- ===== src/Runtime/Feed.antt =====
-- crates/common/src/domain/events.rs, and `apply_event` of crates/common/src/services/project_runtime.rs: the
-- events that agents report. The time of the event is an argument.
use sebenza.Base.{
  Text, codes, Bool, true, false, not, Option, none, some, List, [], ◌∷◌, ◌++◌, ◌==◌, if◌then◌else◌,
  text_eq, is_empty, lookup, insert, keep_if, contains,
}
use sebenza.Runtime.{
  AgentLifecycle, AgentFeedbackState, starting, running, idle, awaiting_permission, stopped, error,
  no_feedback, permission_request, user_question, feedback_name, AgentRuntimeState,
  ManagedWorktreeRuntimeState, ProjectRuntime, build_worktree_window_name, drop_renamed,
}

pub data RuntimeEvent : Type 0 where
  agent_stopped : (worktree_id branch : Text) → RuntimeEvent
  agent_status_changed : (worktree_id branch lifecycle : Text) → RuntimeEvent
  pr_opened : (worktree_id branch : Text) → Option Text → RuntimeEvent
  runtime_error : (worktree_id branch message : Text) → RuntimeEvent
  conversation_started : (worktree_id branch session_id : Text) → RuntimeEvent

unfoldable pub event_worktree_id : RuntimeEvent → Text
event_worktree_id (agent_stopped id _) = id
event_worktree_id (agent_status_changed id _ _) = id
event_worktree_id (pr_opened id _ _) = id
event_worktree_id (runtime_error id _ _) = id
event_worktree_id (conversation_started id _ _) = id

unfoldable pub event_branch : RuntimeEvent → Text
event_branch (agent_stopped _ branch) = branch
event_branch (agent_status_changed _ branch _) = branch
event_branch (pr_opened _ branch _) = branch
event_branch (runtime_error _ branch _) = branch
event_branch (conversation_started _ branch _) = branch

unfoldable pub event_kind : RuntimeEvent → Text
event_kind (agent_stopped _ _) = codes "agent_stopped"
event_kind (agent_status_changed _ _ _) = codes "agent_status_changed"
event_kind (pr_opened _ _ _) = codes "pr_opened"
event_kind (runtime_error _ _ _) = codes "runtime_error"
event_kind (conversation_started _ _ _) = codes "conversation_started"

-- A JSON value as the parser reads one: the text of its fields that hold a string. `none` is a value that is
-- no object.
abbrev pub Body : Type 0
Body = Option (List (Text × Text))

unfoldable pub non_empty : Text → List (Text × Text) → Option Text
non_empty key raw = keep_if (λ s. not (is_empty s)) (lookup key raw)

abbrev pub known_lifecycles : List Text
known_lifecycles =
    codes "starting"
    ∷ codes "running"
    ∷ codes "idle"
    ∷ codes "awaiting_permission"
    ∷ codes "stopped"
    ∷ []

-- The match on the type of the event.
unfoldable pub parse_typed : (kind id branch : Text) → List (Text × Text) → Option RuntimeEvent
parse_typed kind id branch raw =
    if kind == codes "agent_stopped"
    then some (agent_stopped id branch)
    else if kind == codes "agent_status_changed"
    then elim (lookup (codes "lifecycle") raw) [
      | none ↦ none
      | some lifecycle ↦
          if contains known_lifecycles lifecycle
          then some (agent_status_changed id branch lifecycle)
          else none
    ]
    else if kind == codes "pr_opened"
    then some (pr_opened id branch (lookup (codes "url") raw))
    else if kind == codes "conversation_started"
    then elim (non_empty (codes "sessionId") raw) [
      | none ↦ none
      | some session_id ↦ some (conversation_started id branch session_id)
    ]
    else if kind == codes "runtime_error"
    then elim (non_empty (codes "message") raw) [
      | none ↦ none
      | some message ↦ some (runtime_error id branch message)
    ]
    else none

unfoldable pub parse_runtime_event : Body → Option RuntimeEvent
parse_runtime_event none = none
parse_runtime_event (some raw) = elim (non_empty (codes "worktreeId") raw) [
  | none ↦ none
  | some id ↦ elim (non_empty (codes "branch") raw) [
    | none ↦ none
    | some branch ↦ elim (lookup (codes "type") raw) [
      | none ↦ none
      | some kind ↦ parse_typed kind id branch raw
    ]
  ]
]

unfoldable pub feedback_beq : AgentFeedbackState → AgentFeedbackState → Bool
feedback_beq no_feedback no_feedback = true
feedback_beq permission_request permission_request = true
feedback_beq user_question user_question = true
feedback_beq _ _ = false

unfoldable pub feedback_transition_record :
    (worktree_id event_kind : Text) → AgentFeedbackState → AgentFeedbackState → Text → Option Text
feedback_transition_record id kind from to at =
    if feedback_beq from to
    then none
    else some (
        codes "[runtime-feedback] "
        ++ id
        ++ codes ": "
        ++ feedback_name from
        ++ codes " -> "
        ++ feedback_name to
        ++ codes " via "
        ++ kind
        ++ codes " at "
        ++ at)

-- The lifecycle and the feedback that a reported status stands for.
unfoldable pub status_pair : Text → AgentLifecycle × AgentFeedbackState
status_pair lifecycle =
    if lifecycle == codes "starting"
    then (starting, no_feedback)
    else if lifecycle == codes "running"
    then (running, no_feedback)
    else if lifecycle == codes "idle"
    then (idle, no_feedback)
    else if lifecycle == codes "awaiting_permission"
    then (awaiting_permission, permission_request)
    else (stopped, no_feedback)

unfoldable pub started_at : Text → Text → Option Text → Option Text
started_at lifecycle now (some earlier) = some earlier
started_at lifecycle now none = if lifecycle == codes "running" then some now else none

-- What an event changes of the agent, after its time was noted.
unfoldable pub agent_after : RuntimeEvent → Text → AgentRuntimeState → AgentRuntimeState
agent_after (agent_stopped _ _) now agent = record agent {
  lifecycle = stopped;
  feedback_state = no_feedback;
}
agent_after (agent_status_changed _ _ lifecycle) now agent = record agent {
  lifecycle = (status_pair lifecycle).0;
  feedback_state = (status_pair lifecycle).1;
  last_started_at = started_at lifecycle now agent.last_started_at;
  last_error = none;
}
agent_after (runtime_error _ _ message) now agent = record agent {
  lifecycle = error;
  feedback_state = no_feedback;
  last_error = some message;
}
agent_after (pr_opened _ _ _) now agent = agent
agent_after (conversation_started _ _ _) now agent = agent

unfoldable pub reported_session : RuntimeEvent → Option Text → Option Text
reported_session (conversation_started _ _ session_id) before = some session_id
reported_session _ before = before

-- The branch that the event reports, where it differs from the one that is tracked.
unfoldable pub rename_state : Text → ManagedWorktreeRuntimeState → ManagedWorktreeRuntimeState
rename_state branch state = if state.branch == branch then state else record state {
  branch = branch;
  git = record state.git { branch = branch };
  session = record state.session { window_name = build_worktree_window_name branch };
}

unfoldable pub rename_index : Text → Text → Text → List (Text × Text) → List (Text × Text)
rename_index id before after index =
    if before == after then index else insert after id (drop_renamed before after index)

unfoldable pub state_after :
    RuntimeEvent → Text → ManagedWorktreeRuntimeState → ManagedWorktreeRuntimeState
state_after event now state =
    let renamed = rename_state (event_branch event) state in
    record renamed {
      agent = agent_after event now (record renamed.agent { last_event_at = some now });
      reported_session_id = reported_session event renamed.reported_session_id;
    }

-- `none` is `Err(())`, for an id that is not tracked. The second component is the line of the log.
unfoldable pub apply_event :
    Text → RuntimeEvent → ProjectRuntime → Option (ProjectRuntime × Option Text)
apply_event now event rt = elim (lookup (event_worktree_id event) rt.worktrees) [
  | none ↦ none
  | some state ↦
      let id = event_worktree_id event in
      let next = state_after event now state in
      some (
        record {
          worktrees = insert id next rt.worktrees;
          worktree_ids_by_branch =
              rename_index id state.branch (event_branch event) rt.worktree_ids_by_branch;
        },
        feedback_transition_record id (event_kind event) state.agent.feedback_state
            next.agent.feedback_state now,
      )
]
