-- ===== src/Tests/Service.antt =====
-- An item with a proposed request: the decisions of the inbox service on it.
use sebenza.Service.Fresh.{is_orderly, is_due, attempt_in}
use sebenza.Base.{
  Text, codes, ◌≡◌, refl, false, List, [], ◌∷◌, none, some, ℤ, lookup, byte_len, all, contains,
  text_beq,
}
use sebenza.Draft.{InboxDraft, DraftStatus, PrioritySource, parsed, p2, status_eq}
use sebenza.Events.{InboxEvent, request_opened, proposal, resolution_confirmed, delivery_failed}
use sebenza.Limits.{default_limits}
use sebenza.Store.{is_ulid}
use sebenza.World.{Env, World, ok}
use sebenza.World.Outcome.{Outcome}
use sebenza.Service.Reads.{Readable}
use sebenza.Service.Effects.{SameStore}
use sebenza.Service.Decisions.{
  record_proposal, confirm_resolution, redeliver, redact, deliver_attempt,
}
use sebenza.Service.Triage.{Proposed, record_proposal-Proposed}
use sebenza.Service.Deliver.{Delivery, deliver_attempt-Delivery}
use sebenza.Service.Delivered.{deliver_attempt_once}
use sebenza.Service.Confirm.{Confirmed, confirm_resolution-Confirmed}
use sebenza.Service.Redeliver.{Redelivered, redeliver-Redelivered}
use sebenza.Service.Redact.{Tombstoned, redact-Tombstoned}
use sebenza.Tests.Events.{test_hash, wt, event}

abbrev pub item : Text
item = codes "01HZZZZZZZZZZZZZZZZZZZZZZZ"

abbrev pub rid : Text
rid = codes "r"

-- The pane takes what it is given; an id carries the number of its draw.
abbrev pub test_env : Env Text
test_env = record {
  ulid = λ n. b'i' ∷ n ∷ [];
  now_rfc3339 = λ _. codes "t";
  instant = λ n. n;
  sha1_hex = test_hash;
  scan_hits = λ _. [];
  from_value = λ _. none;
  to_value = λ _. none;
  pane = some (λ _ _ _. ok tt);
  observed = false;
  limits = default_limits;
}

abbrev pub test_draft : InboxDraft Text
test_draft = record {
  id = item;
  frontmatter = record {
    schema_version = ℤ.pos 2;
    title = codes "title";
    project = none;
    status = DraftStatus.draft;
    created_at = codes "t";
    updated_at = codes "t";
    conversions = [];
    priority = p2;
    priority_source = PrioritySource.agent;
    extra = [];
  };
  body = codes "body";
}

abbrev pub test_world : List InboxEvent → World Text
test_world log = record {
  drafts = (item, parsed test_draft) ∷ [];
  logs = (item, log) ∷ [];
  sessions = [];
  ids_drawn = 0;
  clock_reads = 0;
  comment_hits = [];
  request_hits = [];
  audits = [];
  sends = [];
  notified = [];
}

abbrev pub opened_world : World Text
opened_world =
    test_world (event (codes "e1") (request_opened rid wt (codes "title") (codes "body") []) ∷ [])

abbrev pub proposed_world : World Text
proposed_world = test_world (
    event (codes "e1") (request_opened rid wt (codes "title") (codes "body") [])
    ∷ event (codes "e2") (proposal rid (codes "p") (codes "fix it") (codes "why") [])
    ∷ [])

abbrev pub failed_world : World Text
failed_world = test_world (
    event (codes "e1") (request_opened rid wt (codes "title") (codes "body") [])
    ∷ event (codes "e2") (resolution_confirmed rid none (codes "hfix it") (codes "fix it") false [])
    ∷ event (codes "e3") (delivery_failed rid 1 (codes "no pane"))
    ∷ [])

pub opened_world-Readable : Readable item opened_world
unfolding is_ulid lookup byte_len all contains text_beq
opened_world-Readable = record { valid = refl; draft = test_draft; found = refl }

confirm_resolution-Confirmed_example :
    Outcome
      (confirm_resolution test_env item rid none (codes "hfix it") none proposed_world)
      (Confirmed test_env item rid proposed_world none (codes "hfix it"))
      (λ _ w'. SameStore proposed_world w')
unfolding is_orderly is_due attempt_in lookup text_beq
confirm_resolution-Confirmed_example =
    confirm_resolution-Confirmed test_env item rid proposed_world none (codes "hfix it") none refl

deliver_attempt_once_example :
    Outcome
      (deliver_attempt test_env item wt rid (codes "fix it") 1 none (codes "e1") opened_world)
      (λ e w'.
        deliver_attempt test_env item wt rid (codes "other") 1 none (codes "e1") w' ≡ (ok e, w'))
      (λ _ _. ⊥)
deliver_attempt_once_example =
    deliver_attempt_once test_env wt rid item 1 (codes "fix it") opened_world opened_world-Readable
      none none (codes "other") (codes "e1") (codes "e1")

deliver_attempt-Delivery_example :
    Outcome
      (deliver_attempt test_env item wt rid (codes "fix it") 1 none (codes "e1") opened_world)
      (Delivery wt rid (codes "fix it") test_env item 1 opened_world)
      (λ _ _. ⊥)
deliver_attempt-Delivery_example =
    deliver_attempt-Delivery wt rid (codes "fix it") test_env item 1 none (codes "e1") opened_world
      opened_world-Readable

record_proposal-Proposed_example :
    Outcome
      (record_proposal test_env item rid (codes "fix it") (codes "why") opened_world)
      (Proposed test_env item rid opened_world (codes "fix it"))
      (λ _ w'. SameStore opened_world w')
record_proposal-Proposed_example =
    record_proposal-Proposed test_env item rid opened_world (codes "fix it") (codes "why")

redeliver-Redelivered_example :
    Outcome
      (redeliver test_env item rid none failed_world)
      (Redelivered test_env item rid failed_world)
      (λ _ w'. SameStore failed_world w')
unfolding is_orderly is_due attempt_in lookup text_beq
redeliver-Redelivered_example = redeliver-Redelivered test_env item rid failed_world none refl

redact-Tombstoned_example :
    Outcome
      (redact test_env item (codes "e2") none proposed_world)
      (Tombstoned test_env item (codes "e2") proposed_world)
      (λ _ w'. SameStore proposed_world w')
redact-Tombstoned_example = redact-Tombstoned test_env item (codes "e2") none proposed_world
