-- ===== src/Reconcile/Parts.antt =====
-- What each write of a reconciliation does to the part of a worktree that only events write.
use sebenza.Base.{
  Text, ◌≡◌, refl, sym, ap, ◌∙◌, inl, inr, Bool, true, false, not, ◌&&◌, Option, none, some, List,
  [], ◌∷◌, map, arith, ◌==◌, nat_eq, text_eq, text_beq_iff, if◌then◌else◌, any, contains, lookup,
  insert, Bool-cases, Option-cases, read_at, read_at-known, read_at-unknown, read_at-insert,
  read_at-remove,
}
use sebenza.Runtime.{
  AgentRuntimeState, ManagedWorktreeRuntimeState, UpsertInput, ProjectRuntime, closed, no_feedback,
  make_default_state, refreshed, upsert_worktree, modify_worktree, set_git_state, set_session_state,
  set_services, set_prs, remove_worktree, ServiceRuntimeState, PrEntry,
}
use sebenza.Reconcile.{
  prs_of, candidate_services, meta_of, Machine, ReconcileConfig, GitWorktreeEntry,
  TmuxWindowSummary, write_worktree, set_window, find_window, enter_root, enter_candidate,
  enter_candidates, enter_roots, seen_ids, sweep, candidate_id, candidate_input,
  make_main_worktree_id, build_main_upsert,
}

-- What only events write: the agent's state but its runtime, and the session that it reported.
abbrev pub EventPart : Type 0
EventPart = AgentRuntimeState × Option Text

abbrev pub event_part : ManagedWorktreeRuntimeState → EventPart
event_part state = (record state.agent { runtime = [] }, state.reported_session_id)

-- The part of a worktree of which no event was reported yet.
abbrev pub fresh_part : EventPart
fresh_part = (
  record {
    runtime = [];
    lifecycle = closed;
    feedback_state = no_feedback;
    last_started_at = none;
    last_event_at = none;
    last_error = none;
  },
  none,
)

-- The event part of the worktree that is tracked under an id.
unfoldable pub part_at : Text → ProjectRuntime → Option EventPart
part_at id rt = read_at event_part id rt.worktrees

modify_worktree-part_at :
    (id other : Text) (change : ManagedWorktreeRuntimeState → ManagedWorktreeRuntimeState)
    (rt : ProjectRuntime)
    → ((state : ManagedWorktreeRuntimeState) → event_part (change state) ≡ event_part state)
    → part_at other (modify_worktree id change rt) ≡ part_at other rt
unfolding part_at modify_worktree
modify_worktree-part_at id other change rt same = elim (Option-cases (lookup id rt.worktrees)) [
  | inl unknown ↦ rw (modify_worktree, unknown) refl
  | inr (state, known) ↦
      rw (modify_worktree, known)
        (elim (Bool-cases (id == other)) [
          | inl equal ↦
              read_at-insert event_part id other (change state) rt.worktrees
              ∙ rw equal (
                  ap (λ p. some p) (same state)
                  ∙ sym (read_at-known event_part id rt.worktrees known)
                  ∙ ap (λ key. read_at event_part key rt.worktrees)
                      (ground (arith, equal, text_beq_iff id other)))
          | inr differ ↦
              read_at-insert event_part id other (change state) rt.worktrees ∙ rw differ refl
        ])
]

-- What is read under `other` once `id` has been entered.
unfoldable pub entered_part : Bool → Option EventPart → Option EventPart
entered_part same (some part) = some part
entered_part same none = if same then some fresh_part else none

entered_part_other : (o : Option EventPart) → entered_part false o ≡ o
unfolding entered_part
entered_part_other none = refl
entered_part_other (some part) = refl

-- What is read after an entry was written whose part is the one that was there, or the fresh one.
read_at-entered :
    (id other : Text) (new : ManagedWorktreeRuntimeState)
    (worktrees : List (Text × ManagedWorktreeRuntimeState))
    → some (event_part new) ≡ entered_part true (read_at event_part id worktrees)
    → read_at event_part other (insert id new worktrees)
      ≡ entered_part (id == other) (read_at event_part other worktrees)
unfolding entered_part
read_at-entered id other new worktrees own = elim (Bool-cases (id == other)) [
  | inl equal ↦
      read_at-insert event_part id other new worktrees
      ∙ rw equal (
          own
          ∙ ap (λ key. entered_part true (read_at event_part key worktrees))
              (ground (arith, equal, text_beq_iff id other)))
  | inr differ ↦
      read_at-insert event_part id other new worktrees
      ∙ rw differ (sym (entered_part_other (read_at event_part other worktrees)))
]

upsert_worktree-part_at :
    (input : UpsertInput) (other : Text) (rt : ProjectRuntime)
    → part_at other (upsert_worktree input rt)
      ≡ entered_part (input.worktree_id == other) (part_at other rt)
unfolding part_at upsert_worktree entered_part make_default_state refreshed
upsert_worktree-part_at input other rt =
    let id = input.worktree_id in
    elim (Option-cases (lookup id rt.worktrees)) [
      | inl unknown ↦
          rw (upsert_worktree, unknown)
            (read_at-entered id other (make_default_state input) rt.worktrees
              (sym (ap (entered_part true) (read_at-unknown event_part id rt.worktrees unknown))))
      | inr (state, known) ↦
          rw (upsert_worktree, known)
            (read_at-entered id other (refreshed input state) rt.worktrees
              (sym (ap (entered_part true) (read_at-known event_part id rt.worktrees known))))
    ]

set_window-part_at :
    (id other : Text) (window : Option TmuxWindowSummary) (rt : ProjectRuntime)
    → part_at other (set_window id window rt) ≡ part_at other rt
unfolding set_window set_session_state
set_window-part_at id other none rt = modify_worktree-part_at id other _ rt (λ state. refl)
set_window-part_at id other (some w) rt = modify_worktree-part_at id other _ rt (λ state. refl)

write_worktree-part_at :
    (machine : Machine) (session : Text) (input : UpsertInput) (path : Text)
    (services : List ServiceRuntimeState) (prs : List PrEntry) (other : Text) (rt : ProjectRuntime)
    → part_at other (write_worktree machine session input path services prs rt)
      ≡ entered_part (input.worktree_id == other) (part_at other rt)
unfolding write_worktree set_git_state set_services set_prs
write_worktree-part_at machine session input path services prs other rt =
    let id = input.worktree_id in
    modify_worktree-part_at id other _ _ (λ state. refl)
    ∙ modify_worktree-part_at id other _ _ (λ state. refl)
    ∙ set_window-part_at id other (find_window machine session input.branch) _
    ∙ modify_worktree-part_at id other _ _ (λ state. refl)
    ∙ upsert_worktree-part_at input other rt

candidate_input_id :
    (machine : Machine) (entry : GitWorktreeEntry)
    → (candidate_input machine entry).worktree_id ≡ candidate_id machine entry
unfolding candidate_input candidate_id
candidate_input_id machine entry = elim (Option-cases (meta_of machine entry.path)) [
  | inl bare ↦ rw (candidate_input, candidate_id, bare) refl
  | inr (meta, stored) ↦ rw (candidate_input, candidate_id, stored) refl
]

enter_candidates-part_at :
    (machine : Machine) (config : ReconcileConfig) (root other : Text)
    (entries : List GitWorktreeEntry) (rt : ProjectRuntime)
    → part_at other (enter_candidates machine config root entries rt)
      ≡ entered_part (contains (map (candidate_id machine) entries) other) (part_at other rt)
unfolding enter_candidates enter_candidate contains entered_part
enter_candidates-part_at machine config root other [] rt =
    sym (entered_part_other (part_at other rt))
enter_candidates-part_at machine config root other (entry ∷ entries) rt = ground (
  arith,
  enter_candidates-part_at machine config root other entries
      (enter_candidate machine config root entry rt),
  write_worktree-part_at machine (machine.build_project_session_name root)
      (candidate_input machine entry) entry.path (candidate_services machine config entry)
      (prs_of machine entry.path) other rt,
  candidate_input_id machine entry,
)

-- Two rounds of entering are one.
entered_part_twice :
    (a b : Bool) (o : Option EventPart)
    → entered_part b (entered_part a o) ≡ entered_part (if a then true else b) o
unfolding entered_part
entered_part_twice a b none = ground arith
entered_part_twice a b (some part) = refl

pub entered-part_at :
    (machine : Machine) (config : ReconcileConfig) (root other : Text)
    (entries : Option GitWorktreeEntry × List GitWorktreeEntry) (rt : ProjectRuntime)
    → part_at other (
        enter_candidates machine config root entries.1
          (enter_roots machine config root entries.0 rt))
      ≡ entered_part (contains (seen_ids machine root entries) other) (part_at other rt)
unfolding enter_roots enter_root seen_ids contains build_main_upsert
entered-part_at machine config root other (none, entries) rt =
    enter_candidates-part_at machine config root other entries rt
entered-part_at machine config root other (some entry, entries) rt =
    enter_candidates-part_at machine config root other entries
      (enter_root machine config root entry rt)
    ∙ ap (entered_part (contains (map (candidate_id machine) entries) other)) (
        write_worktree-part_at machine (machine.build_project_session_name root)
          (build_main_upsert root entry.path config.main_branch (meta_of machine entry.path))
          entry.path [] [] other rt)
    ∙ entered_part_twice (make_main_worktree_id root == other)
        (contains (map (candidate_id machine) entries) other) (part_at other rt)

remove_worktree-part_at :
    (id other : Text) (rt : ProjectRuntime)
    → part_at other (remove_worktree id rt) ≡ (if id == other then none else part_at other rt)
unfolding part_at remove_worktree
remove_worktree-part_at id other rt = elim (Option-cases (lookup id rt.worktrees)) [
  | inl unknown ↦
      rw (remove_worktree, unknown)
        (ground (arith, read_at-unknown event_part id rt.worktrees unknown, text_beq_iff id other))
  | inr (state, known) ↦
      rw (remove_worktree, known) (read_at-remove event_part id other rt.worktrees)
]

-- The last loop removes what it lists and was not met.
pub sweep-part_at :
    (seen : List Text) (states : List ManagedWorktreeRuntimeState) (other : Text)
    (rt : ProjectRuntime)
    → part_at other (sweep seen states rt) ≡ (
        if not (contains seen other) && any (λ s. s.worktree_id == other) states
        then none
        else part_at other rt)
unfolding sweep any
sweep-part_at seen [] other rt = ground arith
sweep-part_at seen (state ∷ states) other rt = elim (Bool-cases (contains seen state.worktree_id)) [
  | inl met ↦
      rw (sweep, met)
        (ground
          (arith, met, sweep-part_at seen states other rt, text_beq_iff state.worktree_id other))
  | inr unmet ↦
      rw (sweep, unmet)
        (ground (
          arith,
          unmet,
          sweep-part_at seen states other (remove_worktree state.worktree_id rt),
          remove_worktree-part_at state.worktree_id other rt,
          text_beq_iff state.worktree_id other,
        ))
]
