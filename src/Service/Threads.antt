-- ===== src/Service/Threads.antt =====
-- The comment threads of crates/common/src/services/inbox_service.rs: `list_comments` and `comment_view`.
pub mod Rows
pub mod Complete
use sebenza.Base.{
  ℕ, zero, suc, ◌+◌, ◌-◌, ◌*◌, ◌/◌, ◌%◌, ◌^◌, ◌≤◌, ◌<◌, max, Text, codes, ◌≡◌, ◌≢◌, refl, sym, ap,
  ◌∙◌, subst, ◌↔◌, ◌⊎◌, inl, inr, Bool, true, false, not, ◌&&◌, ◌||◌, Option, none, some, List, [],
  ◌∷◌, ◌++◌, map, append-nil, append_assoc, arith, Eq, ◌==◌, nat_eq, text_eq, text_beq,
  text_beq_iff, text_beq_refl, nat_beq_iff, ltb, leb, if◌then◌else◌, unwrap_or, is_some, or_else,
  is_some_and, keep_if, all, any, find, filter, filter_map, find_map, contains, length, take,
  lookup, insert, remove, is_empty, is_blank, trim, Bool-cases, Option-cases, All,
}
use sebenza.Draft.{InboxDraft}
use sebenza.Events.{
  InboxEvent, InboxEventKind, RequestView, WorktreeKey, Thread, overall, AuthorKind, comment,
  request_opened, resolution_confirmed, redacted, key_eq,
}
use sebenza.Events.Fold.{fold_requests}
use sebenza.World.{Env, M, pure, ◌>>=◌}
use sebenza.Service.{InboxServiceError, worktree_keys}
use sebenza.Service.Requests.{parsed_draft, events}

pub data CommentKind : Type 0 where
  note request advice proposal resolution : CommentKind

pub record CommentView : Type 0 where
  pub event_id : Text
  pub ts : Text
  pub author : AuthorKind
  pub caller : Option Text
  pub kind : CommentKind
  pub body : Text
  pub title : Option Text
  pub request_id : Option Text
  pub parent_event_id : Option Text
  pub warnings : List Text
  pub is_redacted : Bool

pub record WorktreeGroup : Type 0 where
  pub project : Text
  pub branch : Text
  pub comments : List CommentView

pub record CommentGroups : Type 0 where
  pub overall_rows : List CommentView
  pub worktrees : List WorktreeGroup

unfoldable pub tombstoned : InboxEventKind → Option Text
tombstoned (redacted target) = some target
tombstoned _ = none

unfoldable pub redacted_ids : List InboxEvent → List Text
redacted_ids log = filter_map (λ e. tombstoned e.kind) log

-- The kind, body, title, request and warnings of a row.
abbrev pub RowParts : Type 0
RowParts = CommentKind × Text × Option Text × Option Text × List Text

unfoldable pub row_parts : InboxEventKind → Option RowParts
row_parts (comment _ body warnings) = some (note, body, none, none, warnings)
row_parts (request_opened rid _ title body warnings) =
    some (request, body, some title, some rid, warnings)
row_parts (InboxEventKind.advice rid body warnings) = some (advice, body, none, some rid, warnings)
row_parts (InboxEventKind.proposal rid _ body _ warnings) =
    some (proposal, body, none, some rid, warnings)
row_parts (resolution_confirmed rid _ _ text _ warnings) =
    some (resolution, text, none, some rid, warnings)
row_parts _ = none

unfoldable pub comment_row : InboxEvent → List Text → Option CommentView
comment_row event gone = elim (row_parts event.kind) [
  | none ↦ none
  | some (kind, body, title, request_id, warnings) ↦ some (record {
    event_id = event.event_id;
    ts = event.ts;
    author = event.author;
    caller = event.caller;
    kind = kind;
    body = body;
    title = title;
    request_id = request_id;
    parent_event_id = event.parent_event_id;
    warnings = warnings;
    is_redacted = contains gone event.event_id;
  })
]

unfoldable pub comment_view : InboxEvent → Option CommentView
comment_view event = comment_row event []

unfoldable pub is_group : WorktreeKey → WorktreeGroup → Bool
is_group key group = group.project == key.project && group.branch == key.branch

unfoldable pub new_group : WorktreeKey → WorktreeGroup
new_group key = record { project = key.project; branch = key.branch; comments = [] }

-- `group_for`, and what its caller does to the group: the group of a key, or a new one behind the others.
unfoldable pub group_for :
    WorktreeKey → (WorktreeGroup → WorktreeGroup) → List WorktreeGroup → List WorktreeGroup
group_for key change [] = change (new_group key) ∷ []
group_for key change (group ∷ groups) =
    let rest = group_for key change groups in
    if is_group key group then change group ∷ groups else group ∷ rest

unfoldable pub seed_groups : List WorktreeKey → List WorktreeGroup → List WorktreeGroup
seed_groups [] groups = groups
seed_groups (key ∷ keys) groups = seed_groups keys (group_for key (λ g. g) groups)

-- The thread of the request that a row belongs to.
unfoldable pub request_thread : List RequestView → Option Text → Thread
request_thread requests none = overall
request_thread requests (some rid) = elim (find (λ r. r.request_id == rid) requests) [
  | none ↦ overall
  | some view ↦ Thread.worktree view.worktree
]

unfoldable pub thread_of : List RequestView → InboxEvent → CommentView → Thread
thread_of requests event row = elim event.kind [
  | comment thread _ _ ↦ thread
  | _ ↦ request_thread requests row.request_id
]

unfoldable pub push_comment : CommentView → WorktreeGroup → WorktreeGroup
push_comment row group = record group { comments = group.comments ++ row ∷ [] }

unfoldable pub push_row : Thread → CommentView → CommentGroups → CommentGroups
push_row overall row groups = record groups { overall_rows = groups.overall_rows ++ row ∷ [] }
push_row (Thread.worktree key) row groups = record groups {
  worktrees = group_for key (push_comment row) groups.worktrees;
}

-- The loop over the events.
unfoldable pub collect_rows :
    List RequestView → List Text → List InboxEvent → CommentGroups → CommentGroups
collect_rows requests gone [] groups = groups
collect_rows requests gone (event ∷ log) groups = elim (comment_row event gone) [
  | none ↦ collect_rows requests gone log groups
  | some row ↦ collect_rows requests gone log (push_row (thread_of requests event row) row groups)
]

module _ {V : Type 0} (env : Env V) where
  unfoldable pub list_comments : Text → M V InboxServiceError CommentGroups
  list_comments id = do
    draft ← parsed_draft id
    log ← events id
    pure (
        collect_rows (fold_requests env.sha1_hex log) (redacted_ids log) log
          (record { overall_rows = []; worktrees = seed_groups (worktree_keys env draft) [] }))
