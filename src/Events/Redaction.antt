-- ===== src/Events/Redaction.antt =====
-- What a read of a redacted log shows.
use mathlib.Core.Path.{ap₂}
use mathlib.Core.Option
use sebenza.Base.{
  Text, ◌≡◌, refl, ap, ◌∙◌, Bool, true, false, Option, none, some, List, [], ◌∷◌, map, ◌==◌, any,
  contains, text_eq, filter_map, if◌then◌else◌, arith,
}
use sebenza.Events.{
  InboxEvent, InboxEventKind, comment, request_opened, proposal, advice, redacted, mask_kind,
  mask_event, redaction_targets, apply_redactions, redacted_body, tombstone_target,
}

-- The body that an event shows, for the four kinds that can be redacted.
unfoldable pub shown_body : InboxEventKind → Option Text
shown_body (comment _ body _) = some body
shown_body (request_opened _ _ _ body _) = some body
shown_body (proposal _ _ body _ _) = some body
shown_body (advice _ body _) = some body
shown_body _ = none

abbrev pub names : Text → InboxEventKind → Bool
names id (redacted target) = target == id
names id _ = false

-- A tombstone for `id` stands in the log.
unfoldable pub is_redacted : List InboxEvent → Text → Bool
is_redacted events id = any (λ e. names id e.kind) events

-- What a reader should see of one event of the log.
unfoldable pub seen : List InboxEvent → InboxEvent → Text × Option Text
unfolding is_redacted shown_body
seen log e = (
  e.event_id,
  if is_redacted log e.event_id
      then Option.map (λ _. redacted_body) (shown_body e.kind)
      else shown_body e.kind,
)

contains-tombstone :
    (id : Text) (k : InboxEventKind) (targets : List Text)
    → contains (elim (tombstone_target k) [ none ↦ targets | some t ↦ t ∷ targets ]) id
      ≡ (if names id k then true else contains targets id)
unfolding contains
contains-tombstone id (redacted t) targets = refl
contains-tombstone id (comment t b ws) targets = refl
contains-tombstone id _ targets = refl

contains-redaction_targets :
    (events : List InboxEvent) (id : Text)
    → contains (redaction_targets events) id ≡ is_redacted events id
unfolding redaction_targets filter_map is_redacted any
contains-redaction_targets [] id = unfold contains in refl
contains-redaction_targets (e ∷ events) id =
    contains-tombstone id e.kind (redaction_targets events)
    ∙ ap (λ b. if names id e.kind then true else b) (contains-redaction_targets events id)

shown_body-mask_kind :
    (k : InboxEventKind) → shown_body (mask_kind k) ≡ Option.map (λ _. redacted_body) (shown_body k)
unfolding shown_body mask_kind
shown_body-mask_kind (comment t b ws) = refl
shown_body-mask_kind _ = refl

tombstone_target-mask_kind :
    (k : InboxEventKind) → tombstone_target (mask_kind k) ≡ tombstone_target k
unfolding mask_kind
tombstone_target-mask_kind (comment t b ws) = refl
tombstone_target-mask_kind _ = refl

mask_kind_idem : (k : InboxEventKind) → mask_kind (mask_kind k) ≡ mask_kind k
unfolding mask_kind
mask_kind_idem (comment t b ws) = refl
mask_kind_idem _ = refl

seen-mask_event :
    (log : List InboxEvent) (e : InboxEvent)
    → (
      (mask_event (redaction_targets log) e).event_id,
      shown_body (mask_event (redaction_targets log) e).kind,
    )
      ≡ seen log e
unfolding mask_event seen
seen-mask_event log e =
    ground (arith, contains-redaction_targets log e.event_id, shown_body-mask_kind e.kind)

seen-map :
    (log events : List InboxEvent)
    → map (λ e. (e.event_id, shown_body e.kind)) (map (mask_event (redaction_targets log)) events)
      ≡ map (seen log) events
seen-map log [] = refl
seen-map log (e ∷ events) = ap₂ (λ x xs. x ∷ xs) (seen-mask_event log e) (seen-map log events)

redaction_targets-mask :
    (targets : List Text) (events : List InboxEvent)
    → redaction_targets (map (mask_event targets) events) ≡ redaction_targets events
unfolding redaction_targets filter_map mask_event
redaction_targets-mask targets [] = refl
redaction_targets-mask targets (e ∷ events) =
    ground (arith, redaction_targets-mask targets events, tombstone_target-mask_kind e.kind)

mask_event_idem :
    (targets : List Text) (events : List InboxEvent)
    → map (mask_event targets) (map (mask_event targets) events) ≡ map (mask_event targets) events
unfolding mask_event
mask_event_idem targets [] = refl
mask_event_idem targets (e ∷ events) =
    ground (arith, mask_event_idem targets events, mask_kind_idem e.kind)

-- For every log, a redacted read keeps the events, their ids and their order, and shows of each
-- event that has a body the text "[redacted]" exactly when a tombstone anywhere in the log names the
-- event's id, and its own body when none does. Redacting the read once more changes nothing.
pub apply_redactions-seen :
    (events : List InboxEvent)
    → (map (λ e. (e.event_id, shown_body e.kind)) (apply_redactions events)
        ≡ map (seen events) events)
      × (apply_redactions (apply_redactions events) ≡ apply_redactions events)
unfolding apply_redactions
apply_redactions-seen events = (
  seen-map events events,
  rw (redaction_targets-mask (redaction_targets events) events)
      (mask_event_idem (redaction_targets events) events),
)
