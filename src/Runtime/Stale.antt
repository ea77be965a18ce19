-- ===== src/Runtime/Stale.antt =====
-- The removal of a worktree whose branch another worktree has taken over.
use sebenza.Base.{
  lookup-insert_same, lookup-insert, lookup-remove, Text, ◌≡◌, ◌≢◌, inl, inr, true, false, none,
  some, List, arith, ◌==◌, nat_eq, text_eq, text_beq_iff, is_some, lookup, insert, remove,
  Option-cases,
}
use sebenza.Runtime.{
  ManagedWorktreeRuntimeState, UpsertInput, ProjectRuntime, make_default_state, refreshed,
  drop_renamed, upsert_worktree, remove_worktree, get_worktree_by_branch,
}

-- The same of a worktree that stands in the table and in the index.
abbrev IsLost : (branch id stale : Text) → ProjectRuntime → Type 0
IsLost branch id stale rt =
    (is_some (get_worktree_by_branch branch rt) ≡ true)
    × (get_worktree_by_branch branch (remove_worktree stale rt) ≡ none)
    × (is_some (lookup id (remove_worktree stale rt).worktrees) ≡ true)

entered_IsLost :
    (branch id stale : Text) (entered state : ManagedWorktreeRuntimeState)
    (index : List (Text × Text)) (worktrees : List (Text × ManagedWorktreeRuntimeState))
    → (stale == id) ≡ false
    → lookup stale (insert id entered worktrees) ≡ some state
    → state.branch ≡ branch
    → IsLost branch id stale (record {
      worktrees = insert id entered worktrees;
      worktree_ids_by_branch = insert branch id index;
    })
unfolding get_worktree_by_branch remove_worktree
entered_IsLost branch id stale entered state index worktrees differ known same =
    let gone : lookup branch (remove state.branch (insert branch id index)) ≡ none = ground (
      arith,
      lookup-remove state.branch branch (insert branch id index),
      text_beq_iff state.branch branch,
      same,
    ) in
    let kept : lookup id (remove stale (insert id entered worktrees)) ≡ some entered = ground (
      arith,
      differ,
      lookup-remove stale id (insert id entered worktrees),
      lookup-insert_same id entered worktrees,
    ) in
    (
      ground (arith, lookup-insert_same branch id index, lookup-insert_same id entered worktrees),
      ground (arith, known, gone),
      ground (arith, known, kept),
    )

-- A worktree that was just entered or refreshed is found by its branch. But when another tracked worktree that
-- still has that branch is removed next, as reconciliation does with one that git no longer lists, then no
-- worktree is found by the branch, although the first is still tracked under it.
pub remove_worktree-lost :
    (input : UpsertInput) (stale : Text) (rt : ProjectRuntime) {state : ManagedWorktreeRuntimeState}
    → stale ≢ input.worktree_id
    → lookup stale rt.worktrees ≡ some state
    → state.branch ≡ input.branch
    → (is_some (get_worktree_by_branch input.branch (upsert_worktree input rt)) ≡ true)
      × (get_worktree_by_branch input.branch (remove_worktree stale (upsert_worktree input rt))
          ≡ none)
      × (is_some
            (lookup input.worktree_id (remove_worktree stale (upsert_worktree input rt)).worktrees)
          ≡ true)
unfolding get_worktree_by_branch upsert_worktree remove_worktree
remove_worktree-lost input stale rt {state} differ known same =
    let apart : (stale == input.worktree_id) ≡ false =
      ground (arith, differ, text_beq_iff stale input.worktree_id) in
    let kept : (new : ManagedWorktreeRuntimeState)
        → lookup stale (insert input.worktree_id new rt.worktrees) ≡ some state =
      λ new. ground (
        arith,
        known,
        differ,
        lookup-insert input.worktree_id stale new rt.worktrees,
        text_beq_iff input.worktree_id stale,
      ) in
    elim (Option-cases (lookup input.worktree_id rt.worktrees)) [
      | inl unknown ↦
          rw (upsert_worktree, unknown)
            (entered_IsLost input.branch input.worktree_id stale (make_default_state input) state
              rt.worktree_ids_by_branch rt.worktrees apart (kept (make_default_state input)) same)
      | inr (before, found) ↦
          rw (upsert_worktree, found)
            (entered_IsLost input.branch input.worktree_id stale (refreshed input before) state
              (drop_renamed before.branch input.branch rt.worktree_ids_by_branch) rt.worktrees apart
              (kept (refreshed input before)) same)
    ]
