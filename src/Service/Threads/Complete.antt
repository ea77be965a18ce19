-- ===== src/Service/Threads/Complete.antt =====
-- Every row of the log is in one thread, and each thread is in the order of the log.
use sebenza.Service.Threads.Rows.{thread_beq, row_in, pushed_in, row_in-pushed_in}
use sebenza.Base.{
  Text, ◌≡◌, refl, sym, ap, ◌∙◌, inl, inr, Bool, true, Option, none, some, List, [], ◌∷◌, ◌++◌,
  append-nil, append_assoc, arith, ◌==◌, nat_eq, text_eq, text_beq_iff, if◌then◌else◌, find,
  filter_map, Bool-cases, Option-cases,
}
use sebenza.Events.{
  InboxEvent, RequestView, WorktreeKey, Thread, overall, key_eq, key_beq, key_beq_iff,
  apply_redactions,
}
use sebenza.Events.Fold.{fold_requests}
use sebenza.World.{Env, World, ok}
use sebenza.Service.{worktree_keys}
use sebenza.Service.Effects.{bind-ok, parsed_draft-ok, events-ok}
use sebenza.Service.Reads.{Readable, log_of}
use sebenza.Service.Threads.{
  CommentView, WorktreeGroup, CommentGroups, redacted_ids, comment_row, is_group, new_group,
  group_for, seed_groups, thread_of, push_comment, push_row, collect_rows, list_comments,
}

-- What a thread shows.
unfoldable pub group_rows : WorktreeKey → List WorktreeGroup → List CommentView
group_rows key groups = elim (find (is_group key) groups) [ none ↦ [] | some g ↦ g.comments ]

unfoldable pub rows_of : Thread → CommentGroups → List CommentView
rows_of overall groups = groups.overall_rows
rows_of (Thread.worktree key) groups = group_rows key groups.worktrees

is_group-same :
    (key other : WorktreeKey) (group : WorktreeGroup)
    → is_group key group ≡ true
    → is_group other group ≡ (key == other)
unfolding is_group key_beq
is_group-same key other group own =
    ground
      (arith, own, text_beq_iff group.project key.project, text_beq_iff group.branch key.branch)

group_rows_cons :
    (key : WorktreeKey) (group : WorktreeGroup) (groups : List WorktreeGroup)
    → group_rows key (group ∷ groups)
      ≡ (if is_group key group then group.comments else group_rows key groups)
unfolding group_rows find
group_rows_cons key group groups = ground arith

-- A group with other comments.
abbrev with_comments : (List CommentView → List CommentView) → WorktreeGroup → WorktreeGroup
with_comments change g = record g { comments = change g.comments }

is_group-with_comments :
    (change : List CommentView → List CommentView) (key : WorktreeKey) (group : WorktreeGroup)
    → is_group key (with_comments change group) ≡ is_group key group
unfolding is_group
is_group-with_comments change key group = refl

is_group-new_group : (key other : WorktreeKey) → is_group other (new_group key) ≡ (key == other)
unfolding is_group new_group key_beq
is_group-new_group key other = refl

new_group_empty : (key : WorktreeKey) → (new_group key).comments ≡ []
unfolding new_group
new_group_empty key = refl

group_rows_nil : (key : WorktreeKey) → group_rows key [] ≡ []
unfolding group_rows find
group_rows_nil key = refl

group_rows-group_for :
    (key other : WorktreeKey) (change : List CommentView → List CommentView)
    (groups : List WorktreeGroup)
    → group_rows other (group_for key (with_comments change) groups)
      ≡ (if key == other then change (group_rows other groups) else group_rows other groups)
unfolding group_for
group_rows-group_for key other change [] = ground (
  arith,
  group_rows_cons other (with_comments change (new_group key)) [],
  group_rows_nil other,
  is_group-with_comments change other (new_group key),
  is_group-new_group key other,
  new_group_empty key,
)
group_rows-group_for key other change (group ∷ groups) = elim (Bool-cases (is_group key group)) [
  | inl own ↦
      rw (group_for, own)
        (ground (
          arith,
          own,
          group_rows_cons other (with_comments change group) groups,
          group_rows_cons other group groups,
          is_group-same key other group own,
          is_group-with_comments change other group,
        ))
  | inr apart ↦
      rw (group_for, apart)
        (ground (
          arith,
          apart,
          group_rows_cons other group (group_for key (with_comments change) groups),
          group_rows_cons other group groups,
          group_rows-group_for key other change groups,
          key_beq_iff key other,
        ))
]

group_rows-seed_groups :
    (keys : List WorktreeKey) (other : WorktreeKey) (groups : List WorktreeGroup)
    → group_rows other (seed_groups keys groups) ≡ group_rows other groups
unfolding seed_groups
group_rows-seed_groups [] other groups = refl
group_rows-seed_groups (key ∷ keys) other groups =
    group_rows-seed_groups keys other (group_for key (λ g. g) groups)
    ∙ group_rows-group_for key other (λ rows. rows) groups
    ∙ if_same (key == other) (group_rows other groups)
  where
    if_same : (b : Bool) (rows : List CommentView) → (if b then rows else rows) ≡ rows
    if_same b rows = ground arith

rows_of-push_row :
    (thread own : Thread) (row : CommentView) (groups : CommentGroups)
    → rows_of thread (push_row own row groups)
      ≡ (if thread_beq own thread then rows_of thread groups ++ row ∷ [] else rows_of thread groups)
unfolding rows_of push_row thread_beq push_comment
rows_of-push_row overall overall row groups = refl
rows_of-push_row overall (Thread.worktree key) row groups = refl
rows_of-push_row (Thread.worktree key) overall row groups = refl
rows_of-push_row (Thread.worktree key) (Thread.worktree own) row groups =
    group_rows-group_for own key (λ rows. rows ++ row ∷ []) groups.worktrees

pushed_in-none :
    (requests : List RequestView) (gone : List Text) (thread : Thread) (event : InboxEvent)
    → comment_row event gone ≡ none
    → pushed_in requests gone thread event ≡ none
unfolding pushed_in
pushed_in-none requests gone thread event none_here = rw (pushed_in, none_here) refl

pushed_in-some :
    (requests : List RequestView) (gone : List Text) (thread : Thread) (event : InboxEvent)
    (row : CommentView)
    → comment_row event gone ≡ some row
    → pushed_in requests gone thread event
      ≡ (if thread_beq (thread_of requests event row) thread then some row else none)
unfolding pushed_in
pushed_in-some requests gone thread event row here = rw (pushed_in, here) refl

one_more :
    (row : CommentView) (fits : Bool) (found : Option CommentView)
    (after before later : List CommentView)
    → found ≡ (if fits then some row else none)
    → after ≡ (if fits then before ++ row ∷ [] else before)
    → after ++ later ≡ before ++ (elim found [ none ↦ later | some y ↦ y ∷ later ])
one_more row fits found after before later same after_is =
    ground (arith, same, after_is, append_assoc before (row ∷ []) later)

-- The loop appends to each thread the rows that belong to it.
rows_of-collect_rows :
    (requests : List RequestView) (gone : List Text) (log : List InboxEvent) (thread : Thread)
    (groups : CommentGroups)
    → rows_of thread (collect_rows requests gone log groups)
      ≡ rows_of thread groups ++ filter_map (pushed_in requests gone thread) log
unfolding collect_rows filter_map
rows_of-collect_rows requests gone [] thread groups = sym (append-nil (rows_of thread groups))
rows_of-collect_rows requests gone (event ∷ log) thread groups =
    elim (Option-cases (comment_row event gone)) [
      | inl none_here ↦
          rw (collect_rows, none_here)
            (rows_of-collect_rows requests gone log thread groups
              ∙ ground (arith, pushed_in-none requests gone thread event none_here))
      | inr (row, here) ↦
          rw (collect_rows, here)
            (rows_of-collect_rows requests gone log thread
                (push_row (thread_of requests event row) row groups)
              ∙ one_more row (thread_beq (thread_of requests event row) thread) _ _ _ _
                  (pushed_in-some requests gone thread event row here)
                  (rows_of-push_row thread (thread_of requests event row) row groups))
    ]

rows_of-seeded :
    (keys : List WorktreeKey) (thread : Thread)
    → rows_of thread (record { overall_rows = []; worktrees = seed_groups keys [] }) ≡ []
unfolding rows_of
rows_of-seeded keys overall = refl
rows_of-seeded keys (Thread.worktree key) = group_rows-seed_groups keys key [] ∙ group_rows_nil key

filter_map_same :
    {A B : Type 0} (f g : A → Option B)
    → ((x : A) → f x ≡ g x)
    → (xs : List A) → filter_map f xs ≡ filter_map g xs
unfolding filter_map
filter_map_same f g same [] = refl
filter_map_same f g same (x ∷ xs) = ground (arith, same x, filter_map_same f g same xs)

-- A listing of the comments of an item that can be read succeeds and changes nothing, and each of its threads,
-- the overall one and those of the worktrees, holds exactly the rows that belong to it, in the order of the log:
-- one for every comment, in the thread that it names, and one for every request, advice, proposal and confirmed
-- resolution, in the thread of the worktree that opened the request, each marked as redacted exactly when
-- the log has a tombstone for it.
pub list_comments-threads :
    {V : Type 0} (env : Env V) (id : Text) (w : World V)
    → Readable id w
    → (groups : CommentGroups) × (list_comments env id w ≡ (ok groups, w))
      × ((thread : Thread)
          → rows_of thread groups
            ≡ filter_map
                (row_in
                  (fold_requests env.sha1_hex (apply_redactions (log_of id w)))
                  (apply_redactions (log_of id w))
                  thread)
                (apply_redactions (log_of id w)))
unfolding list_comments rows_of
list_comments-threads env id w readable =
    let log = apply_redactions (log_of id w) in
    let requests = fold_requests env.sha1_hex log in
    let seeded : CommentGroups = record {
      overall_rows = [];
      worktrees = seed_groups (worktree_keys env readable.draft) [];
    } in
    (
      collect_rows requests (redacted_ids log) log seeded,
      bind-ok _ _ w w readable.draft (parsed_draft-ok id w readable)
          ∙ bind-ok _ _ w w log (events-ok id w readable),
      λ thread.
          rows_of-collect_rows requests (redacted_ids log) log thread seeded
          ∙ ap (λ rows. rows ++ filter_map (pushed_in requests (redacted_ids log) thread) log)
              (rows_of-seeded (worktree_keys env readable.draft) thread)
          ∙ sym (
              filter_map_same (row_in requests log thread)
                (pushed_in requests (redacted_ids log) thread)
                (row_in-pushed_in requests log thread) log),
    )
