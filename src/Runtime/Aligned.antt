-- ===== src/Runtime/Aligned.antt =====
-- What every operation on the table keeps: the names that are derived from a worktree's branch follow it, the
-- index points at worktrees of the branch that is looked up, and the feedback follows the lifecycle.
use sebenza.Base.{
  lookup-insert, lookup-remove, Text, ◌≡◌, refl, sym, ap, ◌∙◌, subst, inl, inr, Bool, Option, none,
  some, List, arith, ◌==◌, nat_eq, text_eq, text_beq_iff, if◌then◌else◌, lookup, insert, remove,
  Bool-cases, Option-cases, ℤ,
}
use sebenza.Worktree.{OneshotMeta}
use sebenza.Runtime.{
  AgentLifecycle, AgentFeedbackState, awaiting_permission, no_feedback, permission_request,
  GitWorktreeRuntimeState, AgentRuntimeState, ServiceRuntimeState, PrEntry,
  ManagedWorktreeRuntimeState, UpsertInput, ProjectRuntime, new_runtime, build_worktree_window_name,
  make_default_state, refreshed, drop_renamed, upsert_worktree, modify_worktree, set_git_state,
  set_session_state, set_services, set_prs, set_oneshot, remove_worktree,
}
use sebenza.Runtime.Indexed.{
  IsIndexed, branch_at-known, branch_at-unknown, kept-IsIndexed, entered-IsIndexed,
  dropped-IsIndexed, removed-IsIndexed, renamed-IsIndexed,
}
use sebenza.Runtime.Feed.{
  RuntimeEvent, agent_stopped, agent_status_changed, pr_opened, runtime_error, conversation_started,
  event_branch, event_worktree_id, status_pair, agent_after, rename_state, rename_index,
  state_after, apply_event,
}

-- Any way to change the table.
pub data RuntimeStep : ProjectRuntime → ProjectRuntime → Type 0 where
  upserted : (input : UpsertInput) (rt : ProjectRuntime) → RuntimeStep rt (upsert_worktree input rt)
  git_set :
      (id : Text) (patch : GitWorktreeRuntimeState) (rt : ProjectRuntime)
      → RuntimeStep rt (set_git_state id patch rt)
  session_set :
      (id : Text) (exists : Bool) (name : Option Text) (panes : ℤ) (rt : ProjectRuntime)
      → RuntimeStep rt (set_session_state id exists name panes rt)
  services_set :
      (id : Text) (services : List ServiceRuntimeState) (rt : ProjectRuntime)
      → RuntimeStep rt (set_services id services rt)
  prs_set :
      (id : Text) (prs : List PrEntry) (rt : ProjectRuntime) → RuntimeStep rt (set_prs id prs rt)
  oneshot_set :
      (id : Text) (oneshot : Option OneshotMeta) (rt : ProjectRuntime)
      → RuntimeStep rt (set_oneshot id oneshot rt)
  removed : (id : Text) (rt : ProjectRuntime) → RuntimeStep rt (remove_worktree id rt)
  reported :
      (now : Text) (event : RuntimeEvent) (rt : ProjectRuntime)
      {after : ProjectRuntime × Option Text}
      → apply_event now event rt ≡ some after
      → RuntimeStep rt after.0

pub data Reached : ProjectRuntime → Type 0 where
  new : Reached new_runtime
  next : {rt rt' : ProjectRuntime} → Reached rt → RuntimeStep rt rt' → Reached rt'

-- The feedback that goes with a lifecycle.
abbrev pub feedback_of : AgentLifecycle → AgentFeedbackState
feedback_of awaiting_permission = permission_request
feedback_of _ = no_feedback

-- An entry of the table whose parts agree.
pub record IsAligned (key : Text) (state : ManagedWorktreeRuntimeState) : Type 0 where
  pub id : state.worktree_id ≡ key
  pub git : state.git.branch ≡ state.branch
  pub window : state.session.window_name ≡ build_worktree_window_name state.branch
  pub feedback : state.agent.feedback_state ≡ feedback_of state.agent.lifecycle

abbrev pub AreAligned : List (Text × ManagedWorktreeRuntimeState) → Type 0
AreAligned worktrees =
    (id : Text) (state : ManagedWorktreeRuntimeState)
    → lookup id worktrees ≡ some state
    → IsAligned id state

insert-AreAligned :
    (id : Text) (state : ManagedWorktreeRuntimeState)
    (worktrees : List (Text × ManagedWorktreeRuntimeState))
    → AreAligned worktrees
    → IsAligned id state
    → AreAligned (insert id state worktrees)
insert-AreAligned id state worktrees aligned fine other found known =
    elim (Bool-cases (id == other)) [
      | inl same ↦
          let own : some state ≡ some found =
            ap (λ b. if b then some state else lookup other worktrees) (sym same)
            ∙ sym (lookup-insert id other state worktrees)
            ∙ known in
          subst (λ s. IsAligned other s) (ground (arith, own))
            (subst (λ key. IsAligned key state) (ground (arith, text_beq_iff id other, same)) fine)
      | inr differ ↦ aligned other found (
          ap (λ b. if b then some state else lookup other worktrees) (sym differ)
          ∙ sym (lookup-insert id other state worktrees)
          ∙ known)
    ]

remove-AreAligned :
    (id : Text) (worktrees : List (Text × ManagedWorktreeRuntimeState))
    → AreAligned worktrees
    → AreAligned (remove id worktrees)
remove-AreAligned id worktrees aligned other found known = elim (Bool-cases (id == other)) [
  | inl same ↦ absurd (ground (arith, same, known, lookup-remove id other worktrees))
  | inr differ ↦ aligned other found (
      ap (λ b. if b then none else lookup other worktrees) (sym differ)
      ∙ sym (lookup-remove id other worktrees)
      ∙ known)
]

-- A table in good order.
pub record IsAlignedRuntime (rt : ProjectRuntime) : Type 0 where
  pub aligned : AreAligned rt.worktrees
  pub indexed : IsIndexed rt.worktree_ids_by_branch rt.worktrees

-- A change of one worktree's state that keeps its branch, and the state's parts in step.
modify_worktree-IsAlignedRuntime :
    (id : Text) (change : ManagedWorktreeRuntimeState → ManagedWorktreeRuntimeState)
    (rt : ProjectRuntime)
    → ((state : ManagedWorktreeRuntimeState)
        → IsAligned id state
        → IsAligned id (change state) × ((change state).branch ≡ state.branch))
    → IsAlignedRuntime rt
    → IsAlignedRuntime (modify_worktree id change rt)
unfolding modify_worktree
modify_worktree-IsAlignedRuntime id change rt fine h =
    elim (Option-cases (lookup id rt.worktrees)) [
      | inl unknown ↦ rw (modify_worktree, unknown) h
      | inr (state, known) ↦
          let (changed, same) = fine state (h.aligned id state known) in
          rw (modify_worktree, known)
            (record {
              aligned = insert-AreAligned id (change state) rt.worktrees h.aligned changed;
              indexed =
                  kept-IsIndexed id (change state) rt.worktree_ids_by_branch rt.worktrees
                    (branch_at-known id state rt.worktrees known ∙ ap (λ b. some b) (sym same))
                    h.indexed;
            })
    ]

remove_worktree-IsAlignedRuntime :
    (id : Text) (rt : ProjectRuntime)
    → IsAlignedRuntime rt
    → IsAlignedRuntime (remove_worktree id rt)
unfolding remove_worktree
remove_worktree-IsAlignedRuntime id rt h = elim (Option-cases (lookup id rt.worktrees)) [
  | inl unknown ↦ rw (remove_worktree, unknown) h
  | inr (state, known) ↦
      rw (remove_worktree, known)
        (record {
          aligned = remove-AreAligned id rt.worktrees h.aligned;
          indexed =
              removed-IsIndexed id state.branch rt.worktree_ids_by_branch rt.worktrees
                (branch_at-known id state rt.worktrees known) h.indexed;
        })
]

upsert_worktree-IsAlignedRuntime :
    (input : UpsertInput) (rt : ProjectRuntime)
    → IsAlignedRuntime rt
    → IsAlignedRuntime (upsert_worktree input rt)
unfolding upsert_worktree refreshed make_default_state
upsert_worktree-IsAlignedRuntime input rt h =
    elim (Option-cases (lookup input.worktree_id rt.worktrees)) [
      | inl unknown ↦
          rw (upsert_worktree, unknown)
            (record {
              aligned =
                  insert-AreAligned input.worktree_id (make_default_state input) rt.worktrees
                    h.aligned (record { id = refl; git = refl; window = refl; feedback = refl });
              indexed =
                  entered-IsIndexed input.worktree_id (make_default_state input)
                    rt.worktree_ids_by_branch rt.worktrees h.indexed
                    (λ branch found. absurd (
                      ground (
                        arith,
                        branch_at-unknown input.worktree_id rt.worktrees unknown,
                        h.indexed branch input.worktree_id found,
                      )));
            })
      | inr (state, known) ↦
          let good = h.aligned input.worktree_id state known in
          let (dropped, own) =
            dropped-IsIndexed input.worktree_id state.branch input.branch rt.worktree_ids_by_branch
              rt.worktrees (branch_at-known input.worktree_id state rt.worktrees known) h.indexed in
          rw (upsert_worktree, known)
            (record {
              aligned =
                  insert-AreAligned input.worktree_id (refreshed input state) rt.worktrees h.aligned
                    (record { id = good.id; git = refl; window = refl; feedback = good.feedback });
              indexed =
                  entered-IsIndexed input.worktree_id (refreshed input state)
                    (drop_renamed state.branch input.branch rt.worktree_ids_by_branch) rt.worktrees
                    dropped own;
            })
    ]

status_pair_matched :
    (lifecycle : Text) → (status_pair lifecycle).1 ≡ feedback_of (status_pair lifecycle).0
unfolding status_pair
status_pair_matched lifecycle = ground arith

agent_after_matched :
    (event : RuntimeEvent) (now : Text) (agent : AgentRuntimeState)
    → agent.feedback_state ≡ feedback_of agent.lifecycle
    → (agent_after event now agent).feedback_state
      ≡ feedback_of (agent_after event now agent).lifecycle
unfolding agent_after
agent_after_matched (agent_stopped _ _) now agent h = refl
agent_after_matched (agent_status_changed _ _ lifecycle) now agent h = status_pair_matched lifecycle
agent_after_matched (pr_opened _ _ _) now agent h = h
agent_after_matched (runtime_error _ _ _) now agent h = refl
agent_after_matched (conversation_started _ _ _) now agent h = h

rename_state-IsAligned :
    (id branch : Text) (state : ManagedWorktreeRuntimeState)
    → IsAligned id state
    → IsAligned id (rename_state branch state) × ((rename_state branch state).branch ≡ branch)
unfolding rename_state
rename_state-IsAligned id branch state h = elim (Bool-cases (state.branch == branch)) [
  | inl same ↦ rw (rename_state, same) (h, ground (arith, same, text_beq_iff state.branch branch))
  | inr differ ↦
      rw (rename_state, differ)
        (record { id = h.id; git = refl; window = refl; feedback = h.feedback }, refl)
]

state_after-IsAligned :
    (id now : Text) (event : RuntimeEvent) (state : ManagedWorktreeRuntimeState)
    → IsAligned id state
    → IsAligned id (state_after event now state)
      × ((state_after event now state).branch ≡ event_branch event)
unfolding state_after
state_after-IsAligned id now event state h =
    let (renamed, same) = rename_state-IsAligned id (event_branch event) state h in
    let agent = (rename_state (event_branch event) state).agent in
    (
      record {
        id = renamed.id;
        git = renamed.git;
        window = renamed.window;
        feedback =
            agent_after_matched event now (record agent { last_event_at = some now })
              renamed.feedback;
      },
      same,
    )

apply_event-IsAlignedRuntime :
    (now : Text) (event : RuntimeEvent) (rt : ProjectRuntime) {after : ProjectRuntime × Option Text}
    → apply_event now event rt ≡ some after
    → IsAlignedRuntime rt
    → IsAlignedRuntime after.0
unfolding apply_event
apply_event-IsAlignedRuntime now event rt {after} applied h =
    let id = event_worktree_id event in
    elim (Option-cases (lookup id rt.worktrees)) [
      | inl unknown ↦ absurd (ground (arith, unknown, applied))
      | inr (state, known) ↦
          let changed = state_after event now state in
          let (good, same) = state_after-IsAligned id now event state (h.aligned id state known) in
          let index = rename_index id state.branch (event_branch event) rt.worktree_ids_by_branch in
          let next : ProjectRuntime = record {
            worktrees = insert id changed rt.worktrees;
            worktree_ids_by_branch = index;
          } in
          let indexed : IsIndexed index (insert id changed rt.worktrees) =
            subst
              (λ branch.
                IsIndexed (rename_index id state.branch branch rt.worktree_ids_by_branch)
                  (insert id changed rt.worktrees))
              same
              (renamed-IsIndexed id state.branch changed rt.worktree_ids_by_branch rt.worktrees
                (branch_at-known id state rt.worktrees known) h.indexed) in
          let whole : IsAlignedRuntime next = record {
            aligned = insert-AreAligned id changed rt.worktrees h.aligned good;
            indexed = indexed;
          } in
          subst IsAlignedRuntime (ground (arith, known, applied)) whole
    ]

step-IsAlignedRuntime :
    {rt rt' : ProjectRuntime} → IsAlignedRuntime rt → RuntimeStep rt rt' → IsAlignedRuntime rt'
unfolding set_git_state set_session_state set_services set_prs set_oneshot
step-IsAlignedRuntime h (upserted input rt) = upsert_worktree-IsAlignedRuntime input rt h
step-IsAlignedRuntime h (git_set id patch rt) =
    modify_worktree-IsAlignedRuntime id
      (λ state. record state { git = record patch { branch = state.branch } }) rt
      (λ state good.
        (record { id = good.id; git = refl; window = good.window; feedback = good.feedback }, refl))
      h
step-IsAlignedRuntime h (session_set id exists name panes rt) =
    modify_worktree-IsAlignedRuntime id
      (λ state. record state {
        session = record {
          exists = exists;
          session_name = name;
          window_name = build_worktree_window_name state.branch;
          pane_count = panes;
        };
      })
      rt
      (λ state good.
        (record { id = good.id; git = good.git; window = refl; feedback = good.feedback }, refl))
      h
step-IsAlignedRuntime h (services_set id services rt) =
    modify_worktree-IsAlignedRuntime id (λ state. record state { services = services }) rt
      (λ state good. (
        record { id = good.id; git = good.git; window = good.window; feedback = good.feedback },
        refl,
      ))
      h
step-IsAlignedRuntime h (prs_set id prs rt) =
    modify_worktree-IsAlignedRuntime id (λ state. record state { prs = prs }) rt
      (λ state good. (
        record { id = good.id; git = good.git; window = good.window; feedback = good.feedback },
        refl,
      ))
      h
step-IsAlignedRuntime h (oneshot_set id oneshot rt) =
    modify_worktree-IsAlignedRuntime id (λ state. record state { oneshot = oneshot }) rt
      (λ state good. (
        record { id = good.id; git = good.git; window = good.window; feedback = good.feedback },
        refl,
      ))
      h
step-IsAlignedRuntime h (removed id rt) = remove_worktree-IsAlignedRuntime id rt h
step-IsAlignedRuntime h (reported now event rt applied) =
    apply_event-IsAlignedRuntime now event rt applied h

-- Whatever is entered, refreshed, set, removed and reported, in any order: every tracked worktree is kept under
-- its own id, its git branch and its window name are those of its branch, it waits on a permission exactly when
-- its lifecycle says so and is never said to wait on a question, and the index leads from a branch only to a
-- tracked worktree of that branch.
pub Reached-IsAlignedRuntime : (rt : ProjectRuntime) → Reached rt → IsAlignedRuntime rt
unfolding lookup
Reached-IsAlignedRuntime rt new = record {
  aligned = λ id state known. absurd (ground (arith, known));
  indexed = λ branch id found. absurd (ground (arith, found));
}
Reached-IsAlignedRuntime rt (next {rt = before} reached step) =
    step-IsAlignedRuntime (Reached-IsAlignedRuntime before reached) step
