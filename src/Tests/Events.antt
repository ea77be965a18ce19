-- ===== src/Tests/Events.antt =====
-- A log in which a request is opened, proposed, redacted, confirmed and delivered.
use sebenza.Base.{
  ℤ, Text, codes, ◌≡◌, refl, false, Option, none, some, List, [], ◌∷◌, map, find, all, contains,
  filter_map, text_beq,
}
use sebenza.Events.{
  redacted_body, InboxEvent, InboxEventKind, RequestView, RequestStatus, WorktreeKey, operator,
  request_opened, proposal, resolution_confirmed, delivered, redacted, unknown, apply_redactions,
  request_id_of, mask_kind, mask_event, redaction_targets,
}
use sebenza.Events.Fold.{
  modify_first, apply_kind, fold_kind, fold_from, fold_requests, find_view, is_undecided,
}
use sebenza.Events.Fold.Track.{track, find_view-fold_requests}
use sebenza.Events.Fold.Redaction.{lifecycle, lifecycle-apply_redactions}
use sebenza.Events.Redaction.{seen, shown_body, apply_redactions-seen}

-- A stand-in for the SHA-1: the text itself behind an `h`.
abbrev pub test_hash : Text → Text
test_hash s = b'h' ∷ s

abbrev pub wt : WorktreeKey
wt = record { project = codes "/p"; branch = codes "b" }

abbrev pub event : Text → InboxEventKind → InboxEvent
event id kind = record {
  schema_version = ℤ.pos 1;
  event_id = id;
  ts = codes "t";
  author = operator;
  caller = none;
  parent_event_id = none;
  kind = kind;
}

abbrev pub delivered_log : List InboxEvent
delivered_log =
    event (codes "e0") unknown
    ∷ event (codes "e1") (request_opened (codes "r") wt (codes "title") (codes "body") [])
    ∷ event (codes "e2") (proposal (codes "r") (codes "p") (codes "fix it") (codes "why") [])
    ∷ event (codes "e3") (redacted (codes "e2"))
    ∷ event (codes "e4") (
        resolution_confirmed (codes "r") (some (codes "p")) (codes "hfix it") (codes "fix it") false
          [])
    ∷ event (codes "e5") (delivered (codes "r") 1)
    ∷ []

status_of : Option RequestView → Option RequestStatus
status_of none = none
status_of (some v) = some v.status

delivered_log-resolved :
    status_of (find_view (codes "r") (fold_requests test_hash delivered_log))
    ≡ some RequestStatus.resolved
unfolding status_of find_view find fold_requests fold_from fold_kind request_id_of apply_kind
    is_undecided modify_first all text_beq
delivered_log-resolved = refl

proposal-masked :
    map (λ e. shown_body e.kind) (apply_redactions delivered_log)
    ≡ none ∷ some (codes "body") ∷ some (codes "[redacted]") ∷ none ∷ none ∷ none ∷ []
unfolding shown_body apply_redactions mask_event mask_kind redaction_targets filter_map contains
    text_beq
proposal-masked = unfold redacted_body in refl

find_view-fold_requests_example :
    find_view (codes "r") (fold_requests test_hash delivered_log)
    ≡ track test_hash (codes "r") none delivered_log
find_view-fold_requests_example = find_view-fold_requests test_hash (codes "r") delivered_log

lifecycle-apply_redactions_example :
    map lifecycle (fold_requests test_hash (apply_redactions delivered_log))
    ≡ map lifecycle (fold_requests test_hash delivered_log)
lifecycle-apply_redactions_example = lifecycle-apply_redactions test_hash delivered_log

apply_redactions-seen_example :
    (map (λ e. (e.event_id, shown_body e.kind)) (apply_redactions delivered_log)
      ≡ map (seen delivered_log) delivered_log)
    × (apply_redactions (apply_redactions delivered_log) ≡ apply_redactions delivered_log)
apply_redactions-seen_example = apply_redactions-seen delivered_log
