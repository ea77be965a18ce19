-- ===== src/Service/Decisions.antt =====
-- crates/common/src/services/inbox_service.rs: what triage records, the operator's decisions, and the
-- delivery of a confirmed resolution. The decisions lock makes each of them one action.
use sebenza.Base.{
  ℕ, Text, codes, Bool, true, false, not, ◌&&◌, Option, none, some, List, [], ◌∷◌, ◌++◌, ◌==◌,
  text_eq, nat_eq, find, rev, trim, is_blank, is_empty, byte_len, take, length, is_some,
  is_some_and, or_else, unwrap_or, if◌then◌else◌,
}
use sebenza.Events.{
  InboxEvent, InboxEventKind, RequestView, RequestStatus, WorktreeKey, proposal, advice,
  triage_failed, rejected, resolution_confirmed, delivered, delivery_failed, redacted, comment,
  request_opened, redacted_body, request_id_of, operator, system_agent,
}
use sebenza.Events.Fold.{is_undecided}
use sebenza.Delivery.{prepare_resolution}
use sebenza.Store.{EventAuthor, operator_author, system_agent_author, append_event, read_events}
use sebenza.World.{
  Env, M, Result, ok, err, AuditRecord, pure, raise, or_raise, refuse_if, record_audit, fresh_ulid,
  ◌>>=◌, ◌>>◌,
}
use sebenza.Service.{
  InboxServiceError, invalid, unknown_event, hash_mismatch, wrong_state, of_store, cap, new_audit,
  with_caller, with_worktree, with_event, opened_event_id, proposal_event_id, status_name,
  find_request, max_error_chars, next_attempt,
}
use sebenza.Service.Requests.{parsed_draft, events}

-- `existing`: a tombstone for `id`
abbrev pub is_tombstone : Text → InboxEventKind → Bool
is_tombstone id (redacted target) = target == id
is_tombstone id _ = false

abbrev pub is_redactable : InboxEventKind → Bool
is_redactable (comment _ _ _) = true
is_redactable (request_opened _ _ _ _ _) = true
is_redactable (proposal _ _ _ _ _) = true
is_redactable (advice _ _ _) = true
is_redactable _ = false

-- A delivery of request `rid`, done or failed, at this attempt.
abbrev pub is_attempt : Text → ℕ → InboxEventKind → Bool
is_attempt rid attempt (delivered r a) = r == rid && a == attempt
is_attempt rid attempt (delivery_failed r a _) = r == rid && a == attempt
is_attempt rid attempt _ = false

abbrev pub confirms : Text → InboxEventKind → Bool
confirms rid (resolution_confirmed r _ _ _ _ _) = r == rid
confirms rid _ = false

-- The statuses from which a request can be rejected.
unfoldable pub is_rejectable : RequestStatus → Bool
is_rejectable RequestStatus.opened = true
is_rejectable RequestStatus.proposed = true
is_rejectable RequestStatus.delivery_failed = true
is_rejectable _ = false

unfoldable pub is_open : RequestStatus → Bool
is_open RequestStatus.opened = true
is_open _ = false

unfoldable pub is_delivery_failed : RequestStatus → Bool
is_delivery_failed RequestStatus.delivery_failed = true
is_delivery_failed _ = false

-- The proposal that a confirm is about, if one is on the table.
unfoldable pub proposal_on_table : RequestView → Option Text
proposal_on_table v = elim v.status [ RequestStatus.proposed ↦ v.proposal | _ ↦ none ]

module _ {V : Type 0} (env : Env V) where
  -- `InboxService::request`
  unfoldable pub request : Text → Text → M V InboxServiceError RequestView
  request id rid = do log ← events id; find_request env log rid

  -- The audit record of the system agent, and of the operator, about a request.
  abbrev pub agent_audit : Text → Text → Text → WorktreeKey → AuditRecord
  agent_audit action id rid worktree =
      record (with_worktree (new_audit action id system_agent) worktree) { request_id = some rid }

  abbrev pub operator_audit : Text → Text → Text → Option Text → WorktreeKey → AuditRecord
  operator_audit action id rid caller worktree =
      record (with_worktree (with_caller (new_audit action id operator) caller) worktree) {
        request_id = some rid;
      }

  unfoldable pub record_proposal :
      Text → Text → Text → Text → M V InboxServiceError (Option InboxEvent)
  record_proposal id rid body rationale = do
    refuse_if (is_blank body) (invalid (codes "a proposal needs a body"))
    cap (codes "body") (byte_len body) env.limits.max_body_bytes
    log ← events id
    view ← find_request env log rid
    if not (is_open view.status) then pure none else do
      proposal_id ← fresh_ulid env
      event ← of_store (
          append_event env id system_agent_author (opened_event_id log rid)
            (proposal rid proposal_id body rationale (env.scan_hits body)))
      record_audit
          (with_event (agent_audit (codes "inbox.proposal.added") id rid view.worktree) event)
      pure (some event)

  unfoldable pub record_advice : Text → Text → Text → M V InboxServiceError InboxEvent
  record_advice id rid body = do
    refuse_if (is_blank body) (invalid (codes "advice needs a body"))
    cap (codes "body") (byte_len body) env.limits.max_body_bytes
    log ← events id
    view ← find_request env log rid
    event ← of_store (
        append_event env id system_agent_author (opened_event_id log rid)
          (advice rid body (env.scan_hits body)))
    record_audit (with_event (agent_audit (codes "inbox.advice.added") id rid view.worktree) event)
    pure event

  unfoldable pub record_triage_failed : Text → Text → Text → M V InboxServiceError InboxEvent
  record_triage_failed id rid error = do
    log ← events id
    view ← find_request env log rid
    event ← of_store (
        append_event env id system_agent_author (opened_event_id log rid)
          (triage_failed rid (take max_error_chars error)))
    record_audit (with_event (agent_audit (codes "inbox.triage.failed") id rid view.worktree) event)
    pure event

  -- The paste itself: what the sink was told, and what it answered.
  unfoldable pub send : WorktreeKey → Text → Text → M V InboxServiceError (Result Text Unit)
  send worktree rid text w = elim env.pane [
    | none ↦ (ok (err (codes "no pane delivery is configured")), w)
    | some sink ↦
        let pasted = prepare_resolution rid text in
        (
          ok (sink (length w.sends) worktree pasted),
          record w { sends = w.sends ++ (worktree, pasted) ∷ [] },
        )
  ]

  -- The event of a delivery, and the action of its audit record.
  unfoldable pub delivery_event : Text → ℕ → Result Text Unit → Text × InboxEventKind
  delivery_event rid attempt (ok _) = (codes "inbox.resolution.delivered", delivered rid attempt)
  delivery_event rid attempt (err error) = (
    codes "inbox.resolution.delivery_failed",
    delivery_failed rid attempt (take max_error_chars error),
  )

  abbrev pub operator_as : Option Text → EventAuthor
  operator_as caller = record operator_author { caller = caller }

  unfoldable pub deliver_attempt :
      Text → WorktreeKey → Text → Text → ℕ → Option Text → Text → M V InboxServiceError InboxEvent
  deliver_attempt id worktree rid text attempt caller parent = do
    log ← of_store (read_events id)
    elim (find (λ e. is_attempt rid attempt e.kind) log) [
      | some event ↦ pure event
      | none ↦ do
        sent ← send worktree rid text
        let (action, kind) = delivery_event rid attempt sent
        event ← of_store (append_event env id (operator_as caller) (some parent) kind)
        record_audit (
            with_event
              (record (operator_audit action id rid caller worktree) { attempt = some attempt })
              event)
        pure event
    ]

  -- The text that the operator was shown: the proposal, or else the resolution that is sent along.
  unfoldable pub shown_text : Option Text → Option Text → M V InboxServiceError Text
  shown_text (some p) body = pure p
  shown_text none (some b) = pure b
  shown_text none none =
      raise (invalid (codes "there is no proposal to confirm; send the resolution as body"))

  abbrev pub cap_body : Option Text → M V InboxServiceError Unit
  cap_body none = pure tt
  cap_body (some b) = cap (codes "body") (byte_len b) env.limits.max_body_bytes

  -- The parent of a confirm: the proposal's event, or else the event that opened the request.
  unfoldable pub confirm_parent : List InboxEvent → Text → RequestView → Option Text → Option Text
  confirm_parent log rid v none = opened_event_id log rid
  confirm_parent log rid v (some _) = elim v.proposal_id [
    | none ↦ opened_event_id log rid
    | some pid ↦ or_else (proposal_event_id log pid) (opened_event_id log rid)
  ]

  unfoldable pub confirm_resolution :
      Text → Text → Option Text → Text → Option Text → M V InboxServiceError RequestView
  confirm_resolution id rid body content_hash caller = do
    cap_body body
    log ← events id
    view ← find_request env log rid
    refuse_if (not (is_undecided view.status)) (
        wrong_state (status_name view.status)
          (codes "only an open or proposed request can be confirmed"))
    let on_table = proposal_on_table view
    shown ← shown_text on_table body
    refuse_if (is_some_and on_table (λ p. p == redacted_body) && not (is_some body))
        (invalid (codes "the proposal was redacted; send the resolution as body"))
    let text = unwrap_or body shown
    refuse_if (is_blank text) (invalid (codes "a resolution needs text"))
    refuse_if (not (content_hash == env.sha1_hex shown)) hash_mismatch
    let edited = is_some_and on_table (λ p. not (p == text))
    let attempt = next_attempt view.attempts
    confirmed ← of_store (
        append_event env id (operator_as caller) (confirm_parent log rid view on_table) (
          resolution_confirmed rid (elim on_table [ none ↦ none | some _ ↦ view.proposal_id ])
            (env.sha1_hex text) text edited (env.scan_hits text)))
    record_audit (
        with_event
          (record (operator_audit (codes "inbox.resolution.confirmed") id rid caller
            view.worktree) { edited = some edited; attempt = some attempt })
          confirmed)
    deliver_attempt id view.worktree rid text attempt caller confirmed.event_id
    request id rid

  unfoldable pub reject_request :
      Text → Text → Text → Option Text → M V InboxServiceError RequestView
  reject_request id rid raw_reason caller = do
    let reason = trim raw_reason
    refuse_if (is_empty reason) (invalid (codes "a rejection needs a reason"))
    cap (codes "reason") (byte_len reason) env.limits.max_body_bytes
    log ← events id
    view ← find_request env log rid
    refuse_if (not (is_rejectable view.status)) (
        wrong_state (status_name view.status)
          (codes "a confirmed or resolved request cannot be rejected"))
    event ←
        of_store
          (append_event env id (operator_as caller) (opened_event_id log rid) (rejected rid reason))
    record_audit (
        with_event (operator_audit (codes "inbox.request.rejected") id rid caller view.worktree)
          event)
    request id rid

  -- The newest confirm of the request.
  unfoldable pub last_confirm : List InboxEvent → Text → Text
  last_confirm log rid = elim (find (λ e. confirms rid e.kind) (rev log)) [
    | none ↦ []
    | some e ↦ e.event_id
  ]

  unfoldable pub redeliver : Text → Text → Option Text → M V InboxServiceError RequestView
  redeliver id rid caller = do
    log ← events id
    view ← find_request env log rid
    refuse_if (not (is_delivery_failed view.status))
        (wrong_state (status_name view.status) (codes "only a failed delivery can be redelivered"))
    text ← or_raise view.confirmed_text (invalid (codes "the request has no confirmed resolution"))
    let attempt = next_attempt view.attempts
    record_audit
        (record (operator_audit (codes "inbox.resolution.redeliver") id rid caller view.worktree) {
          attempt = some attempt;
        })
    deliver_attempt id view.worktree rid text attempt caller (last_confirm log rid)
    request id rid

  unfoldable pub redact : Text → Text → Option Text → M V InboxServiceError InboxEvent
  redact id event_id caller = do
    parsed_draft id
    log ← of_store (read_events id)
    elim (find (λ e. is_tombstone event_id e.kind) log) [
      | some tombstone ↦ pure tombstone
      | none ↦ do
        target ←
            or_raise (find (λ e. e.event_id == event_id && is_redactable e.kind) log)
              (unknown_event event_id)
        tombstone ←
            of_store (append_event env id (operator_as caller) (some event_id) (redacted event_id))
        record_audit (
            with_event
              (record (with_caller (new_audit (codes "inbox.comment.redacted") id operator)
                caller) { request_id = request_id_of target.kind })
              tombstone)
        pure tombstone
    ]
