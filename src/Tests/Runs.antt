-- ===== src/Tests/Runs.antt =====
-- The decisions of the inbox service, run.
use sebenza.Base.{ℕ, Text, codes, ◌≡◌, refl, Option, none, some, length}
use sebenza.Events.{RequestStatus, RequestView}
use sebenza.Service.{InboxServiceError}
use sebenza.World.{World, Result, ok, err}
use sebenza.Service.Decisions.{confirm_resolution}
use sebenza.Tests.Service.{item, rid, test_env, proposed_world}

-- The status that a method answers with, and what the panes were sent.
answered : Result InboxServiceError RequestView × World Text → Option RequestStatus × ℕ
answered (ok v, w) = (some v.status, length w.sends)
answered (err _, w) = (none, length w.sends)

confirm-resolves :
    answered (confirm_resolution test_env item rid none (codes "hfix it") none proposed_world)
    ≡ (some RequestStatus.resolved, 1)
unfolding answered confirm_resolution sebenza.World.◌>>=◌ sebenza.Service.Requests.events
    sebenza.Service.Requests.parsed_draft sebenza.World.map_err sebenza.Store.get
    sebenza.World.refuse_if sebenza.Store.is_ulid sebenza.Base.byte_len sebenza.Base.all
    sebenza.Base.contains sebenza.Base.lookup sebenza.Base.text_beq sebenza.Store.read_events
    sebenza.Service.find_request sebenza.World.or_raise sebenza.Events.Fold.find_view
    sebenza.Base.find sebenza.Base.is_empty sebenza.Base.is_whitespace sebenza.Base.trim
    sebenza.Base.trim_end_matches sebenza.Base.trim_matches sebenza.Base.insert
    sebenza.Base.drop_while sebenza.Base.filter_map sebenza.Base.find_map sebenza.Base.rev
    sebenza.Events.Fold.apply_kind sebenza.Events.Fold.fold_from sebenza.Events.Fold.fold_kind
    sebenza.Events.Fold.fold_requests sebenza.Events.Fold.is_undecided
    sebenza.Events.Fold.modify_first sebenza.Events.apply_redactions sebenza.Events.mask_event
    sebenza.Events.mask_kind sebenza.Events.redacted_body sebenza.Events.redaction_targets
    sebenza.Events.request_id_of sebenza.Service.Decisions.confirm_parent
    sebenza.Service.Decisions.deliver_attempt sebenza.Service.Decisions.delivery_event
    sebenza.Service.Decisions.proposal_on_table sebenza.Service.Decisions.request
    sebenza.Service.Decisions.send sebenza.Service.Decisions.shown_text
    sebenza.Service.opened_event_id sebenza.Service.proposal_event_id sebenza.Service.status_name
    sebenza.Store.append_event
confirm-resolves = refl

confirm-refused :
    answered (confirm_resolution test_env item rid none (codes "hfix") none proposed_world)
    ≡ (none, 0)
unfolding answered confirm_resolution sebenza.World.◌>>=◌ sebenza.Service.Requests.events
    sebenza.Service.Requests.parsed_draft sebenza.World.map_err sebenza.Store.get
    sebenza.World.refuse_if sebenza.Store.is_ulid sebenza.Base.byte_len sebenza.Base.all
    sebenza.Base.contains sebenza.Base.lookup sebenza.Base.text_beq sebenza.Store.read_events
    sebenza.Service.find_request sebenza.World.or_raise sebenza.Events.Fold.find_view
    sebenza.Base.find sebenza.Base.is_empty sebenza.Base.is_whitespace sebenza.Base.trim
    sebenza.Base.trim_end_matches sebenza.Base.trim_matches sebenza.Base.insert
    sebenza.Base.drop_while sebenza.Base.filter_map sebenza.Base.find_map sebenza.Base.rev
    sebenza.Events.Fold.apply_kind sebenza.Events.Fold.fold_from sebenza.Events.Fold.fold_kind
    sebenza.Events.Fold.fold_requests sebenza.Events.Fold.is_undecided
    sebenza.Events.Fold.modify_first sebenza.Events.apply_redactions sebenza.Events.mask_event
    sebenza.Events.mask_kind sebenza.Events.redacted_body sebenza.Events.redaction_targets
    sebenza.Events.request_id_of sebenza.Service.Decisions.confirm_parent
    sebenza.Service.Decisions.deliver_attempt sebenza.Service.Decisions.delivery_event
    sebenza.Service.Decisions.proposal_on_table sebenza.Service.Decisions.request
    sebenza.Service.Decisions.send sebenza.Service.Decisions.shown_text
    sebenza.Service.opened_event_id sebenza.Service.proposal_event_id sebenza.Service.status_name
    sebenza.Store.append_event
confirm-refused = refl
