-- ===== src/Service/Threads/Rows.antt =====
-- Which row an event has in which thread, and that the loop pushes that row.
use sebenza.Service.Decisions.{is_tombstone}
use sebenza.Base.{
  contains, any, Text, ◌≡◌, refl, Bool, true, false, Option, none, some, List, [], ◌∷◌, arith, ◌==◌,
  nat_eq, text_eq, text_beq_iff, if◌then◌else◌, filter_map,
}
use sebenza.Events.{
  InboxEventKind, comment, request_opened, resolution_confirmed, triage_failed, rejected, delivered,
  delivery_failed, priority_changed, redacted, InboxEvent, RequestView, Thread, overall, key_eq,
}
use sebenza.Events.Fold.{find_view}
use sebenza.Service.Threads.{
  tombstoned, RowParts, note, request, advice, proposal, resolution, row_parts, request_thread,
  CommentView, redacted_ids, comment_row, thread_of,
}

unfoldable pub thread_beq : Thread → Thread → Bool
thread_beq overall overall = true
thread_beq (Thread.worktree a) (Thread.worktree b) = a == b
thread_beq _ _ = false

-- The thread of the worktree that opened a request, and the overall thread for a request that is not known.
unfoldable pub home : List RequestView → Text → Thread
home requests rid = elim (find_view rid requests) [
  | none ↦ overall
  | some view ↦ Thread.worktree view.worktree
]

-- The thread that an event belongs to and what it shows there: every comment, request, advice, proposal and
-- confirmed resolution, and nothing else.
unfoldable pub shows_in : List RequestView → InboxEventKind → Option (Thread × RowParts)
shows_in requests (comment thread body ws) = some (thread, (note, body, none, none, ws))
shows_in requests (request_opened rid worktree title body ws) =
    some (home requests rid, (request, body, some title, some rid, ws))
shows_in requests (InboxEventKind.advice rid body ws) =
    some (home requests rid, (advice, body, none, some rid, ws))
shows_in requests (InboxEventKind.proposal rid pid body rationale ws) =
    some (home requests rid, (proposal, body, none, some rid, ws))
shows_in requests (resolution_confirmed rid pid hash text edited ws) =
    some (home requests rid, (resolution, text, none, some rid, ws))
shows_in requests (triage_failed _ _) = none
shows_in requests (rejected _ _) = none
shows_in requests (delivered _ _) = none
shows_in requests (delivery_failed _ _ _) = none
shows_in requests (priority_changed _ _ _) = none
shows_in requests (redacted _) = none
shows_in requests _ = none

-- The row of an event in a thread of the log, if it belongs there; it is marked as redacted if the log has
-- a tombstone for it.
unfoldable pub row_in :
    List RequestView → List InboxEvent → Thread → InboxEvent → Option CommentView
row_in requests log thread event = elim (shows_in requests event.kind) [
  | none ↦ none
  | some (own, (kind, body, title, request_id, ws)) ↦
      if thread_beq own thread
      then some (record {
        event_id = event.event_id;
        ts = event.ts;
        author = event.author;
        caller = event.caller;
        kind = kind;
        body = body;
        title = title;
        request_id = request_id;
        parent_event_id = event.parent_event_id;
        warnings = ws;
        is_redacted = any (λ e. is_tombstone event.event_id e.kind) log;
      })
      else none
]

contains-redacted_ids :
    (id : Text) (log : List InboxEvent)
    → contains (redacted_ids log) id ≡ any (λ e. is_tombstone id e.kind) log
unfolding redacted_ids filter_map contains any tombstoned
contains-redacted_ids id [] = refl
contains-redacted_ids id (e ∷ log) = by_kind (contains-redacted_ids id log) e.kind
  where
    by_kind :
        contains (redacted_ids log) id ≡ any (λ x. is_tombstone id x.kind) log
        → (k : InboxEventKind)
        → contains (redacted_ids (record e { kind = k } ∷ log)) id
          ≡ any (λ x. is_tombstone id x.kind) (record e { kind = k } ∷ log)
    by_kind rest (redacted target) =
        ground (arith, rest, text_beq_iff target id, text_beq_iff id target)
    by_kind rest _ = rest

-- The row that the loop pushes, in the thread that it pushes it to.
unfoldable pub pushed_in : List RequestView → List Text → Thread → InboxEvent → Option CommentView
pushed_in requests gone thread event = elim (comment_row event gone) [
  | none ↦ none
  | some row ↦ if thread_beq (thread_of requests event row) thread then some row else none
]

pub row_in-pushed_in :
    (requests : List RequestView) (log : List InboxEvent) (thread : Thread) (event : InboxEvent)
    → row_in requests log thread event ≡ pushed_in requests (redacted_ids log) thread event
unfolding row_in pushed_in shows_in comment_row row_parts thread_of request_thread home find_view
row_in-pushed_in requests log thread event = by_kind event.kind
  where
    by_kind :
        (k : InboxEventKind)
        → row_in requests log thread (record event { kind = k })
          ≡ pushed_in requests (redacted_ids log) thread (record event { kind = k })
    by_kind (comment own body ws) = ground (arith, contains-redacted_ids event.event_id log)
    by_kind (request_opened rid worktree title body ws) =
        ground (arith, contains-redacted_ids event.event_id log)
    by_kind (InboxEventKind.advice rid body ws) =
        ground (arith, contains-redacted_ids event.event_id log)
    by_kind (InboxEventKind.proposal rid pid body rationale ws) =
        ground (arith, contains-redacted_ids event.event_id log)
    by_kind (resolution_confirmed rid pid hash text edited ws) =
        ground (arith, contains-redacted_ids event.event_id log)
    by_kind _ = refl
