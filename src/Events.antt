-- ===== src/Events.antt =====
-- crates/common/src/domain/inbox_events.rs: the collaboration events of one inbox item, the view of
-- a request, the request that an event belongs to, and the masking of redacted bodies.
pub mod Fold
pub mod Redaction
use sebenza.Base.{
  ℕ, Text, ℤ, codes, ◌≡◌, ◌↔◌, refl, Bool, true, false, ◌&&◌, Option, none, some, List, [], ◌∷◌,
  map, Eq, ◌==◌, text_beq, text_beq_iff, text_eq, filter_map, contains, if◌then◌else◌, arith,
}
use sebenza.Draft.{Priority, PrioritySource}

pub data AuthorKind : Type 0 where
  operator worktree_agent system_agent : AuthorKind

pub record WorktreeKey : Type 0 where
  pub project : Text
  pub branch : Text

pub data Thread : Type 0 where
  overall : Thread
  worktree : WorktreeKey → Thread

pub data InboxEventKind : Type 0 where
  -- thread, body, warnings
  comment : Thread → Text → List Text → InboxEventKind
  -- request_id, worktree, title, body, warnings
  request_opened : Text → WorktreeKey → Text → Text → List Text → InboxEventKind
  -- request_id, proposal_id, body, rationale, warnings
  proposal : Text → Text → Text → Text → List Text → InboxEventKind
  -- request_id, body, warnings
  advice : Text → Text → List Text → InboxEventKind
  -- request_id, error
  triage_failed : Text → Text → InboxEventKind
  -- request_id, reason
  rejected : Text → Text → InboxEventKind
  -- request_id, proposal_id, content_hash, text, edited, warnings
  resolution_confirmed : Text → Option Text → Text → Text → Bool → List Text → InboxEventKind
  -- request_id, attempt
  delivered : Text → ℕ → InboxEventKind
  -- request_id, attempt, error
  delivery_failed : Text → ℕ → Text → InboxEventKind
  -- from, to, source
  priority_changed : Priority → Priority → PrioritySource → InboxEventKind
  -- target_event_id
  redacted : Text → InboxEventKind
  unknown : InboxEventKind

pub record InboxEvent : Type 0 where
  pub schema_version : ℤ
  pub event_id : Text
  pub ts : Text
  pub author : AuthorKind
  pub caller : Option Text
  pub parent_event_id : Option Text
  pub kind : InboxEventKind

pub data RequestStatus : Type 0 where
  opened proposed confirmed resolved delivery_failed : RequestStatus

pub record RequestView : Type 0 where
  pub request_id : Text
  pub worktree : WorktreeKey
  pub title : Text
  pub body : Text
  pub status : RequestStatus
  pub flagged : Bool
  pub proposal_id : Option Text
  pub proposal : Option Text
  pub proposal_hash : Option Text
  pub proposal_warnings : List Text
  pub content_hash : Option Text
  pub confirmed_text : Option Text
  pub last_reason : Option Text
  pub last_error : Option Text
  pub attempts : ℕ
  pub warnings : List Text
  pub opened_at : Text

unfoldable pub key_beq : WorktreeKey → WorktreeKey → Bool
key_beq a b = a.project == b.project && a.branch == b.branch

pub key_beq_iff : (a b : WorktreeKey) → (key_beq a b ≡ true) ↔ (a ≡ b)
unfolding key_beq
key_beq_iff a b = ground (arith, text_beq_iff a.project b.project, text_beq_iff a.branch b.branch)

instance abbrev pub key_eq : Eq WorktreeKey
key_eq = record { beq = key_beq; beq_iff = key_beq_iff }

-- The request that an event belongs to, if any.
unfoldable pub request_id_of : InboxEventKind → Option Text
request_id_of (request_opened rid _ _ _ _) = some rid
request_id_of (proposal rid _ _ _ _) = some rid
request_id_of (advice rid _ _) = some rid
request_id_of (triage_failed rid _) = some rid
request_id_of (rejected rid _) = some rid
request_id_of (resolution_confirmed rid _ _ _ _ _) = some rid
request_id_of (delivered rid _) = some rid
request_id_of (delivery_failed rid _ _) = some rid
request_id_of _ = none

unfoldable pub redacted_body : Text
redacted_body = codes "[redacted]"

-- The target of a tombstone.
abbrev pub tombstone_target : InboxEventKind → Option Text
tombstone_target (redacted target) = some target
tombstone_target _ = none

-- `*body = REDACTED_BODY` on the four kinds that have a body
unfoldable pub mask_kind : InboxEventKind → InboxEventKind
mask_kind (comment thread _ ws) = comment thread redacted_body ws
mask_kind (request_opened rid wt title _ ws) = request_opened rid wt title redacted_body ws
mask_kind (proposal rid pid _ rationale ws) = proposal rid pid redacted_body rationale ws
mask_kind (advice rid _ ws) = advice rid redacted_body ws
mask_kind k = k

unfoldable pub redaction_targets : List InboxEvent → List Text
redaction_targets events = filter_map (λ e. tombstone_target e.kind) events

unfoldable pub mask_event : List Text → InboxEvent → InboxEvent
unfolding mask_kind
mask_event targets e =
    if contains targets e.event_id then record e { kind = mask_kind e.kind } else e

unfoldable pub apply_redactions : List InboxEvent → List InboxEvent
unfolding redaction_targets mask_event
apply_redactions events = map (mask_event (redaction_targets events)) events
