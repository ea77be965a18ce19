-- ===== src/Reconcile/Seen.antt =====
-- Which worktrees a reconciliation leaves in the table, and what it leaves of their agents.
use sebenza.Base.{
  pos, Text, ◌≡◌, refl, ◌∙◌, inl, inr, Bool, true, false, ◌||◌, Option, none, some, List, [], ◌∷◌,
  map, arith, ◌==◌, nat_eq, text_eq, text_beq_refl, if◌then◌else◌, unwrap_or, any, contains, lookup,
  Bool-cases, Option-cases, read_at-unknown,
}
use sebenza.Runtime.{
  ManagedWorktreeRuntimeState, UpsertInput, ProjectRuntime, remove_worktree, insert_by_branch,
  sort_by_branch, list_worktrees, ServiceRuntimeState, PrEntry,
}
use sebenza.Runtime.Aligned.{
  Reached, next, upserted, git_set, session_set, services_set, prs_set, removed, AreAligned,
  Reached-IsAlignedRuntime,
}
use sebenza.Reconcile.Parts.{
  EventPart, event_part, fresh_part, part_at, entered_part, entered-part_at, sweep-part_at,
}
use sebenza.Reconcile.{
  git_state, prs_of, candidate_services, meta_of, Machine, ReconcileConfig, GitWorktreeEntry,
  TmuxWindowSummary, write_worktree, set_window, find_window, enter_root, enter_candidate,
  enter_candidates, enter_roots, seen_ids, sweep, run_reconcile, split_repo_root_entry,
  candidate_input, build_main_upsert,
}

any-insert_by_branch :
    (test : ManagedWorktreeRuntimeState → Bool) (state : ManagedWorktreeRuntimeState)
    (states : List ManagedWorktreeRuntimeState)
    → any test (insert_by_branch state states) ≡ (test state || any test states)
unfolding any insert_by_branch
any-insert_by_branch test state [] = ground arith
any-insert_by_branch test state (head ∷ states) =
    ground (arith, any-insert_by_branch test state states)

any-sort_by_branch :
    (test : ManagedWorktreeRuntimeState → Bool) (states : List ManagedWorktreeRuntimeState)
    → any test (sort_by_branch states) ≡ any test states
unfolding any sort_by_branch
any-sort_by_branch test [] = refl
any-sort_by_branch test (state ∷ states) =
    ground (
      arith,
      any-insert_by_branch test state (sort_by_branch states),
      any-sort_by_branch test states,
    )

-- What is kept under an id is among the values.
any-values :
    (id : Text) (state : ManagedWorktreeRuntimeState)
    (worktrees : List (Text × ManagedWorktreeRuntimeState))
    → lookup id worktrees ≡ some state
    → state.worktree_id ≡ id
    → any (λ s. s.worktree_id == id) (map (λ entry. entry.1) worktrees) ≡ true
unfolding any lookup
any-values id state [] known own = absurd (ground (arith, known))
any-values id state ((key, first) ∷ worktrees) known own =
    ground (arith, known, own, any-values id state worktrees, text_beq_refl id)

sweep_tracked :
    (seen : List Text) (rt : ProjectRuntime) (other : Text)
    → AreAligned rt.worktrees
    → part_at other (sweep seen (list_worktrees rt) rt)
      ≡ (if contains seen other then part_at other rt else none)
unfolding list_worktrees part_at
sweep_tracked seen rt other aligned = elim (Option-cases (lookup other rt.worktrees)) [
  | inl unknown ↦
      sweep-part_at seen (list_worktrees rt) other rt
      ∙ ground (arith, read_at-unknown event_part other rt.worktrees unknown)
  | inr (state, known) ↦
      sweep-part_at seen (list_worktrees rt) other rt
      ∙ ground (
        arith,
        any-sort_by_branch (λ s. s.worktree_id == other) (map (λ entry. entry.1) rt.worktrees),
        any-values other state rt.worktrees known (aligned other state known).id,
      )
]

set_window-Reached :
    (id : Text) (window : Option TmuxWindowSummary) (rt : ProjectRuntime)
    → Reached rt
    → Reached (set_window id window rt)
unfolding set_window
set_window-Reached id none rt reached = next reached (session_set id false none (pos 0) rt)
set_window-Reached id (some w) rt reached =
    next reached (session_set id true (some w.session_name) w.pane_count rt)

write_worktree-Reached :
    (machine : Machine) (session : Text) (input : UpsertInput) (path : Text)
    (services : List ServiceRuntimeState) (prs : List PrEntry) (rt : ProjectRuntime)
    → Reached rt
    → Reached (write_worktree machine session input path services prs rt)
unfolding write_worktree
write_worktree-Reached machine session input path services prs rt reached =
    let id = input.worktree_id in
    next
      (next
        (set_window-Reached id (find_window machine session input.branch) _ (
          next (next reached (upserted input rt))
            (git_set id (git_state input.branch (machine.read_worktree_status path)) _)))
        (services_set id services _))
      (prs_set id prs _)

enter_candidates-Reached :
    (machine : Machine) (config : ReconcileConfig) (root : Text) (entries : List GitWorktreeEntry)
    (rt : ProjectRuntime)
    → Reached rt
    → Reached (enter_candidates machine config root entries rt)
unfolding enter_candidates enter_candidate
enter_candidates-Reached machine config root [] rt reached = reached
enter_candidates-Reached machine config root (entry ∷ entries) rt reached =
    enter_candidates-Reached machine config root entries _ (
      write_worktree-Reached machine (machine.build_project_session_name root)
        (candidate_input machine entry) entry.path (candidate_services machine config entry)
        (prs_of machine entry.path) rt reached)

enter_roots-Reached :
    (machine : Machine) (config : ReconcileConfig) (root : Text) (entry : Option GitWorktreeEntry)
    (rt : ProjectRuntime)
    → Reached rt
    → Reached (enter_roots machine config root entry rt)
unfolding enter_roots enter_root
enter_roots-Reached machine config root none rt reached = reached
enter_roots-Reached machine config root (some entry) rt reached =
    write_worktree-Reached machine (machine.build_project_session_name root)
      (build_main_upsert root entry.path config.main_branch (meta_of machine entry.path)) entry.path
      [] [] rt reached

sweep-Reached :
    (seen : List Text) (states : List ManagedWorktreeRuntimeState) (rt : ProjectRuntime)
    → Reached rt
    → Reached (sweep seen states rt)
unfolding sweep
sweep-Reached seen [] rt reached = reached
sweep-Reached seen (state ∷ states) rt reached =
    elim (Bool-cases (contains seen state.worktree_id)) [
      | inl met ↦ rw (sweep, met) (sweep-Reached seen states rt reached)
      | inr unmet ↦
          rw (sweep, unmet)
            (sweep-Reached seen states (remove_worktree state.worktree_id rt)
              (next reached (removed state.worktree_id rt)))
    ]

-- What is read of a worktree after a run: nothing, unless it was met.
abbrev part_after : Bool → Option EventPart → Option EventPart
part_after met before = if met then some (unwrap_or before fresh_part) else none

-- From any table that the operations lead to, a reconciliation leaves exactly the worktrees that git lists (by
-- the id of their metadata, or by their path): one that was tracked keeps the agent state and the session that
-- its events reported, a new one starts closed with no feedback, and every other one is gone. What it leaves is
-- again a table that the operations lead to.
pub run_reconcile-parts :
    (machine : Machine) (config : ReconcileConfig) (root : Text) (rt : ProjectRuntime)
    → Reached rt
    → ((id : Text)
        → part_at id (run_reconcile machine config root rt)
          ≡ part_after
              (contains
                (seen_ids machine root
                  (split_repo_root_entry machine (machine.list_live_worktrees root) root))
                id)
              (part_at id rt))
      × Reached (run_reconcile machine config root rt)
unfolding run_reconcile entered_part
run_reconcile-parts machine config root rt reached =
    let entries = split_repo_root_entry machine (machine.list_live_worktrees root) root in
    let seen = seen_ids machine root entries in
    let entered =
      enter_candidates machine config root entries.1
        (enter_roots machine config root entries.0 rt) in
    let fine : Reached entered =
      enter_candidates-Reached machine config root entries.1 _
        (enter_roots-Reached machine config root entries.0 rt reached) in
    (
      λ id.
          sweep_tracked seen entered id (Reached-IsAlignedRuntime entered fine).aligned
          ∙ ground (arith, entered-part_at machine config root id entries rt),
      sweep-Reached seen (list_worktrees entered) entered fine,
    )
