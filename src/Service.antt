-- ===== src/Service.antt =====
-- crates/common/src/services/inbox_service.rs: the errors, the audit records and the pure helpers of
-- the inbox service. Its methods are in the modules below.
pub mod Reads
pub mod Effects
pub mod Views
pub mod Comment
pub mod Open
pub mod Redeliver
pub mod Redact
pub mod Confirm
pub mod Delivered
pub mod Fresh
pub mod Deliver
pub mod Reject
pub mod Triage
pub mod Requests
pub mod Decisions
pub mod Priorities
pub mod Threads
pub mod Ledger
pub mod Edits
use sebenza.Base.{
  ltb, ℕ, ◌+◌, ◌%◌, ◌^◌, Text, codes, Bool, true, false, not, Option, none, some, List, [], ◌∷◌,
  ◌++◌, ◌==◌, text_eq, find, find_map, filter, filter_map, contains, lines, trim, is_empty, take,
  map, unwrap_or, if◌then◌else◌,
}
use sebenza.Draft.{InboxDraft}
use sebenza.Events.{
  InboxEvent, InboxEventKind, RequestStatus, RequestView, WorktreeKey, AuthorKind, operator,
  worktree_agent, system_agent, request_opened, proposal, key_eq,
}
use sebenza.Events.Fold.{fold_requests, find_view}
use sebenza.Convert.{ConversionOutcome, TargetError, is_created}
use sebenza.Store.{InboxStoreError, EventAuthor}
use sebenza.World.{Env, M, Result, ok, err, AuditRecord, or_raise, refuse_if, map_err}

pub data InboxServiceError : Type 0 where
  confirmation_required : Text → InboxServiceError
  invalid_targets : List TargetError → InboxServiceError
  -- field, limit
  too_large : Text → ℕ → InboxServiceError
  rate_limited : InboxServiceError
  too_many_open_requests foreign_worktree invalid unknown_request unknown_event :
      Text → InboxServiceError
  hash_mismatch : InboxServiceError
  wrong_state : Text → Text → InboxServiceError
  store : InboxStoreError → InboxServiceError

-- `?` on a result of the store
abbrev pub of_store : {V A : Type 0} → M V InboxStoreError A → M V InboxServiceError A
of_store m = map_err store m

-- `AuditRecord::new`, `with_caller`, `with_worktree` and `with_event`
abbrev pub new_audit : Text → Text → AuthorKind → AuditRecord
new_audit action draft_id actor = record {
  action = action;
  draft_id = draft_id;
  event_id = none;
  request_id = none;
  actor = actor;
  caller = none;
  thread = none;
  project = none;
  branch = none;
  from = none;
  to = none;
  source = none;
  refusal = none;
  attempt = none;
  edited = none;
}

abbrev pub with_caller : AuditRecord → Option Text → AuditRecord
with_caller r caller = record r { caller = caller }

abbrev pub with_worktree : AuditRecord → WorktreeKey → AuditRecord
with_worktree r key = record r { project = some key.project; branch = some key.branch }

abbrev pub with_event : AuditRecord → InboxEvent → AuditRecord
with_event r e = record r { event_id = some e.event_id }

abbrev pub max_error_chars : ℕ
max_error_chars = 500

-- `attempts + 1` on a `u32`
abbrev pub next_attempt : ℕ → ℕ
next_attempt n = (n + 1) % 2 ^ 32

-- The event of the log that opened request `rid`.
abbrev pub opens_request : Text → InboxEventKind → Bool
opens_request rid (request_opened r _ _ _ _) = r == rid
opens_request rid _ = false

unfoldable pub opened_event_id : List InboxEvent → Text → Option Text
opened_event_id events rid =
    find_map (λ e. if opens_request rid e.kind then some e.event_id else none) events

abbrev pub carries_proposal : Text → InboxEventKind → Bool
carries_proposal pid (proposal _ p _ _ _) = p == pid
carries_proposal pid _ = false

unfoldable pub proposal_event_id : List InboxEvent → Text → Option Text
proposal_event_id events pid =
    find_map (λ e. if carries_proposal pid e.kind then some e.event_id else none) events

unfoldable pub status_name : RequestStatus → Text
status_name RequestStatus.opened = codes "open"
status_name RequestStatus.proposed = codes "proposed"
status_name RequestStatus.confirmed = codes "confirmed"
status_name RequestStatus.resolved = codes "resolved"
status_name RequestStatus.delivery_failed = codes "delivery_failed"

unfoldable pub rate_key : EventAuthor → Option WorktreeKey → Option Text
rate_key author worktree = elim author.kind [
  | system_agent ↦ none
  | worktree_agent ↦ some (elim worktree [
    | none ↦ codes "worktree:-"
    | some k ↦ codes "worktree:" ++ k.project ++ codes ":" ++ k.branch
  ])
  | operator ↦ some (codes "operator:" ++ unwrap_or author.caller (codes "-"))
]

unfoldable pub title_from : Text → Text
title_from body = take 80 (unwrap_or (find (λ l. not (is_empty l)) (map trim (lines body))) [])

module _ {V : Type 0} (env : Env V) where
  unfoldable pub created_conversions : InboxDraft V → List ConversionOutcome
  created_conversions draft =
      filter is_created (filter_map env.from_value draft.frontmatter.conversions)

-- The keys of the outcomes, each once, in order.
unfoldable pub collect_keys : List WorktreeKey → List ConversionOutcome → List WorktreeKey
collect_keys out [] = out
collect_keys out (o ∷ outcomes) =
    let key : WorktreeKey = record { project = o.project_path; branch = o.branch } in
    collect_keys (if contains out key then out else out ++ key ∷ []) outcomes

module _ {V : Type 0} (env : Env V) where
  unfoldable pub worktree_keys : InboxDraft V → List WorktreeKey
  worktree_keys draft = collect_keys [] (created_conversions env draft)

  -- `find_request`
  unfoldable pub find_request : List InboxEvent → Text → M V InboxServiceError RequestView
  find_request events rid =
      or_raise (find_view rid (fold_requests env.sha1_hex events)) (unknown_request rid)

-- `cap`
abbrev pub cap : {V : Type 0} → Text → ℕ → ℕ → M V InboxServiceError Unit
cap field len limit = refuse_if (ltb limit len) (too_large field limit)
