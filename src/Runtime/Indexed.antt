-- ===== src/Runtime/Indexed.antt =====
-- The index from branches to worktrees, under each change of the table.
use sebenza.Base.{
  read_at-unknown, read_at, read_at-known, read_at-insert, read_at-remove, lookup-insert,
  lookup-remove, Text, ◌≡◌, ap, ◌∙◌, inl, inr, Option, none, some, List, arith, ◌==◌, nat_eq,
  text_eq, text_beq_iff, if◌then◌else◌, lookup, insert, remove, Bool-cases,
}
use sebenza.Runtime.{ManagedWorktreeRuntimeState, drop_renamed}
use sebenza.Runtime.Feed.{rename_index}

-- The branch that a worktree is tracked under.
unfoldable pub branch_at : Text → List (Text × ManagedWorktreeRuntimeState) → Option Text
branch_at = read_at (λ state. state.branch)

-- The index points at worktrees that are tracked under the branch.
abbrev pub IsIndexed : List (Text × Text) → List (Text × ManagedWorktreeRuntimeState) → Type 0
IsIndexed index worktrees =
    (branch id : Text) → lookup branch index ≡ some id → branch_at id worktrees ≡ some branch

branch_at-insert :
    (id other : Text) (state : ManagedWorktreeRuntimeState)
    (worktrees : List (Text × ManagedWorktreeRuntimeState))
    → branch_at other (insert id state worktrees)
      ≡ (if id == other then some state.branch else branch_at other worktrees)
unfolding branch_at
branch_at-insert id other state worktrees = read_at-insert (λ s. s.branch) id other state worktrees

branch_at-remove :
    (id other : Text) (worktrees : List (Text × ManagedWorktreeRuntimeState))
    → branch_at other (remove id worktrees)
      ≡ (if id == other then none else branch_at other worktrees)
unfolding branch_at
branch_at-remove id other worktrees = read_at-remove (λ s. s.branch) id other worktrees

pub branch_at-unknown :
    (id : Text) (worktrees : List (Text × ManagedWorktreeRuntimeState))
    → lookup id worktrees ≡ none
    → branch_at id worktrees ≡ none
unfolding branch_at
branch_at-unknown id worktrees unknown = read_at-unknown (λ s. s.branch) id worktrees unknown

pub branch_at-known :
    (id : Text) (state : ManagedWorktreeRuntimeState)
    (worktrees : List (Text × ManagedWorktreeRuntimeState))
    → lookup id worktrees ≡ some state
    → branch_at id worktrees ≡ some state.branch
unfolding branch_at
branch_at-known id state worktrees known = read_at-known (λ s. s.branch) id worktrees known

-- A change of a worktree that keeps its branch.
pub kept-IsIndexed :
    (id : Text) (after : ManagedWorktreeRuntimeState) (index : List (Text × Text))
    (worktrees : List (Text × ManagedWorktreeRuntimeState))
    → branch_at id worktrees ≡ some after.branch
    → IsIndexed index worktrees
    → IsIndexed index (insert id after worktrees)
kept-IsIndexed id after index worktrees known indexed branch other found = ground (
  arith,
  known,
  found,
  indexed branch other,
  branch_at-insert id other after worktrees,
  text_beq_iff id other,
)

-- A worktree that is entered: the index holds it under no other branch any more.
pub entered-IsIndexed :
    (id : Text) (after : ManagedWorktreeRuntimeState) (index : List (Text × Text))
    (worktrees : List (Text × ManagedWorktreeRuntimeState))
    → IsIndexed index worktrees
    → ((branch : Text) → lookup branch index ≡ some id → branch ≡ after.branch)
    → IsIndexed (insert after.branch id index) (insert id after worktrees)
entered-IsIndexed id after index worktrees indexed own branch other found = ground (
  arith,
  found,
  indexed branch other,
  own branch,
  lookup-insert after.branch branch id index,
  branch_at-insert id other after worktrees,
  text_beq_iff id other,
  text_beq_iff after.branch branch,
)

-- The index without the branch that a worktree had.
pub dropped-IsIndexed :
    (id before after : Text) (index : List (Text × Text))
    (worktrees : List (Text × ManagedWorktreeRuntimeState))
    → branch_at id worktrees ≡ some before
    → IsIndexed index worktrees
    → IsIndexed (drop_renamed before after index) worktrees
      × ((branch : Text)
          → lookup branch (drop_renamed before after index) ≡ some id
          → branch ≡ after)
unfolding drop_renamed
dropped-IsIndexed id before after index worktrees known indexed = (
  λ branch other found.
      ground (arith, known, found, indexed branch other, lookup-remove before branch index),
  λ branch found. ground (
    arith,
    known,
    found,
    indexed branch id,
    lookup-remove before branch index,
    text_beq_iff before after,
    text_beq_iff before branch,
  ),
)

pub removed-IsIndexed :
    (id before : Text) (index : List (Text × Text))
    (worktrees : List (Text × ManagedWorktreeRuntimeState))
    → branch_at id worktrees ≡ some before
    → IsIndexed index worktrees
    → IsIndexed (remove before index) (remove id worktrees)
removed-IsIndexed id before index worktrees known indexed branch other found = ground (
  arith,
  known,
  found,
  indexed branch other,
  lookup-remove before branch index,
  branch_at-remove id other worktrees,
  text_beq_iff id other,
  text_beq_iff before branch,
)

pub renamed-IsIndexed :
    (id before : Text) (after : ManagedWorktreeRuntimeState) (index : List (Text × Text))
    (worktrees : List (Text × ManagedWorktreeRuntimeState))
    → branch_at id worktrees ≡ some before
    → IsIndexed index worktrees
    → IsIndexed (rename_index id before after.branch index) (insert id after worktrees)
unfolding rename_index
renamed-IsIndexed id before after index worktrees known indexed =
    elim (Bool-cases (before == after.branch)) [
      | inl same ↦
          rw (rename_index, same)
            (kept-IsIndexed id after index worktrees
              (known ∙ ap (λ b. some b) (ground (arith, same, text_beq_iff before after.branch)))
              indexed)
      | inr differ ↦
          let (dropped, own) =
            dropped-IsIndexed id before after.branch index worktrees known indexed in
          rw (rename_index, differ)
            (entered-IsIndexed id after (drop_renamed before after.branch index) worktrees dropped
              own)
    ]
