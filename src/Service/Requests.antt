-- ===== src/Service/Requests.antt =====
-- crates/common/src/services/inbox_service.rs: reading an item's log, comments, new requests, and what
-- a worktree agent sends.
use mathlib.Core.Option
use sebenza.Base.{
  ℕ, Text, codes, Bool, true, false, not, ◌&&◌, ◌||◌, Option, none, some, List, [], ◌∷◌, ◌++◌, ◌==◌,
  text_eq, find, contains, trim, is_blank, is_empty, byte_len, length, filter, keep_if, unwrap_or,
  is_some_and, trim_end_matches, leb, if◌then◌else◌, nat_eq,
}
use sebenza.Draft.{InboxDraft, parsed, raw}
use sebenza.Events.{
  InboxEvent, Thread, overall, WorktreeKey, RequestView, RequestStatus, comment, request_opened,
  apply_redactions, key_eq,
}
use sebenza.Events.Fold.{fold_requests}
use sebenza.Limits.{allow_at}
use sebenza.Convert.{ConversionOutcome}
use sebenza.Store
use sebenza.Store.{EventAuthor, unparsed, worktree_agent_author, append_event, read_events}
use sebenza.World.{
  World, Env, M, ok, err, AuditRecord, pure, raise, gets, modify, or_raise, refuse_if, record_audit,
  instant_now, fresh_ulid, ◌>>=◌, ◌>>◌,
}
use sebenza.Service.{
  InboxServiceError, too_large, rate_limited, too_many_open_requests, foreign_worktree, invalid,
  store, of_store, cap, new_audit, with_caller, with_worktree, with_event, rate_key, title_from,
  created_conversions, worktree_keys,
}

pub data IngressKind : Type 0 where
  -- title, body
  request : Option Text → Text → IngressKind
  comment_ : Text → IngressKind

pub record WorktreeIngress : Type 0 where
  pub draft_id : Text
  pub worktree_path : Text
  pub branch : Text
  pub kind : IngressKind

-- The test `r.status != RequestStatus::Resolved`
unfoldable pub is_unresolved : RequestView → Bool
is_unresolved r = elim r.status [ RequestStatus.resolved ↦ false | _ ↦ true ]

module _ {V : Type 0} where
  -- `InboxService::parsed`
  unfoldable pub parsed_draft : Text → M V InboxServiceError (InboxDraft V)
  parsed_draft id = do
    view ← of_store (Store.get id)
    elim view [ parsed draft ↦ pure draft | raw i _ error ↦ raise (store (unparsed i error)) ]

  -- `InboxService::events`: the log with redactions applied
  unfoldable pub events : Text → M V InboxServiceError (List InboxEvent)
  events id = do parsed_draft id; log ← of_store (read_events id); pure (apply_redactions log)

module _ {V : Type 0} (env : Env V) where
  -- A hit on the comment limiter, and one on the request limiter.
  unfoldable pub comment_allowed : Text → M V InboxServiceError Bool
  comment_allowed key = do
    at ← instant_now env
    hits ← gets (λ w. w.comment_hits)
    let (allowed, hits') = allow_at env.limits.comments key at hits
    modify (λ w. record w { comment_hits = hits' })
    pure allowed

  unfoldable pub request_allowed : Text → M V InboxServiceError Bool
  request_allowed key = do
    at ← instant_now env
    hits ← gets (λ w. w.request_hits)
    let (allowed, hits') = allow_at env.limits.requests key at hits
    modify (λ w. record w { request_hits = hits' })
    pure allowed

  -- `if let Some(key) = .. && !rate.allow(&key) { return Err(RateLimited) }`
  abbrev pub limited_by :
      (Text → M V InboxServiceError Bool) → Option Text → M V InboxServiceError Unit
  limited_by allowed none = pure tt
  limited_by allowed (some key) = do passed ← allowed key; refuse_if (not passed) rate_limited

  abbrev pub thread_worktree : Thread → Option WorktreeKey
  thread_worktree overall = none
  thread_worktree (Thread.worktree key) = some key

  unfoldable pub comment_audit : Text → EventAuthor → Option WorktreeKey → AuditRecord
  comment_audit id author none =
      record (with_caller (new_audit (codes "inbox.comment.added") id author.kind) author.caller) {
        thread = some (codes "overall");
      }
  comment_audit id author (some key) =
      with_worktree
        (record (with_caller (new_audit (codes "inbox.comment.added") id author.kind)
          author.caller) { thread = some (codes "worktree") })
        key

  -- A worktree thread must name a worktree that the item was converted into.
  unfoldable pub known_worktree : InboxDraft V → Option WorktreeKey → M V InboxServiceError Unit
  known_worktree draft none = pure tt
  known_worktree draft (some key) = refuse_if (not (contains (worktree_keys env draft) key)) (
      invalid (
        key.project
        ++ (codes ":" ++ (key.branch ++ codes " is not a worktree this item was converted into"))))

  unfoldable pub add_comment : Text → EventAuthor → Thread → Text → M V InboxServiceError InboxEvent
  add_comment id author thread body = do
    refuse_if (is_blank body) (invalid (codes "a comment needs a body"))
    cap (codes "body") (byte_len body) env.limits.max_body_bytes
    draft ← parsed_draft id
    known_worktree draft (thread_worktree thread)
    limited_by comment_allowed (rate_key author (thread_worktree thread))
    event ← of_store (append_event env id author none (comment thread body (env.scan_hits body)))
    record_audit (with_event (comment_audit id author (thread_worktree thread)) event)
    pure event

  -- The requests of the item that are not resolved.
  unfoldable pub open_count : List InboxEvent → ℕ
  open_count log = length (filter is_unresolved (fold_requests env.sha1_hex log))

  -- `open_request` up to the append: what a request must meet, by the log as it is read here.
  unfoldable pub admit_request :
      Text → EventAuthor → WorktreeKey → Text → Text → M V InboxServiceError Unit
  admit_request id author worktree title body = do
    refuse_if (is_empty title || is_blank body)
        (invalid (codes "a request needs a title and a body"))
    cap (codes "title") (length title) env.limits.max_title_chars
    cap (codes "body") (byte_len body) env.limits.max_body_bytes
    draft ← parsed_draft id
    refuse_if (not (contains (worktree_keys env draft) worktree)) (foreign_worktree id)
    log ← of_store (read_events id)
    refuse_if (leb env.limits.max_open_requests (open_count log)) (too_many_open_requests id)
    limited_by request_allowed (rate_key author (some worktree))

  -- `open_request` from the append on.
  unfoldable pub take_request :
      Text → EventAuthor → WorktreeKey → Text → Text → M V InboxServiceError InboxEvent
  take_request id author worktree title body = do
    request_id ← fresh_ulid env
    event ← of_store (
        append_event env id author none
          (request_opened request_id worktree title body (env.scan_hits (title ++ 0x0a ∷ body))))
    record_audit (
        with_event
          (record (with_worktree
            (with_caller (new_audit (codes "inbox.request.opened") id author.kind) author.caller)
            worktree) { thread = some (codes "worktree"); request_id = some request_id })
          event)
    modify (λ w.
        if env.observed then record w { notified = w.notified ++ (id, request_id) ∷ [] } else w)
    pure event

  unfoldable pub open_request :
      Text → EventAuthor → WorktreeKey → Text → Text → M V InboxServiceError InboxEvent
  open_request id author worktree raw_title body = do
    let title = trim raw_title
    admit_request id author worktree title body
    take_request id author worktree title body

  unfoldable pub list_requests : Text → M V InboxServiceError (List RequestView)
  list_requests id = do log ← events id; pure (fold_requests env.sha1_hex log)

  -- The created conversion that both the claimed branch and the claimed path match.
  unfoldable pub claimed_conversion : InboxDraft V → WorktreeIngress → Option ConversionOutcome
  claimed_conversion draft ingress =
      let trimmed = λ (p : Text). trim_end_matches (λ c. c == b'/') p in
      find
        (λ c.
          c.branch == ingress.branch
          && is_some_and c.worktree_path (λ p. trimmed p == trimmed ingress.worktree_path))
        (created_conversions env draft)

  unfoldable pub ingest_unaudited : WorktreeIngress → M V InboxServiceError InboxEvent
  ingest_unaudited ingress = do
    draft ← parsed_draft ingress.draft_id
    conversion ← or_raise (claimed_conversion draft ingress) (foreign_worktree draft.id)
    let key : WorktreeKey = record { project = conversion.project_path; branch = conversion.branch }
    elim ingress.kind [
      | request title body ↦
          open_request draft.id worktree_agent_author key
            (unwrap_or (keep_if (λ t. not (is_empty t)) (Option.map trim title)) (title_from body))
            body
      | comment_ body ↦ add_comment draft.id worktree_agent_author (Thread.worktree key) body
    ]

  -- Why ingress was refused, where it is audited.
  unfoldable pub refusal_of : InboxServiceError → Option Text
  refusal_of (foreign_worktree _) = some (codes "foreign_worktree")
  refusal_of rate_limited = some (codes "rate_limited")
  refusal_of (too_many_open_requests _) = some (codes "too_many_open")
  refusal_of (too_large _ _) = some (codes "too_large")
  refusal_of _ = none

  unfoldable pub audit_refusal : WorktreeIngress → InboxServiceError → World V → World V
  audit_refusal ingress e w = elim (refusal_of e) [
    | none ↦ w
    | some refusal ↦ record w {
      audits =
          w.audits
          ++ (record (with_caller
              (new_audit (codes "inbox.ingress.refused") ingress.draft_id
                worktree_agent_author.kind)
              worktree_agent_author.caller) {
                branch = some ingress.branch;
                refusal = some refusal;
              })
            ∷ [];
    }
  ]

  unfoldable pub ingest : WorktreeIngress → M V InboxServiceError InboxEvent
  ingest ingress w =
      let (r, w') = ingest_unaudited ingress w in
      elim r [ ok event ↦ (ok event, w') | err e ↦ (err e, audit_refusal ingress e w') ]
