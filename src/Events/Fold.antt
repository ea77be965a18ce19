-- ===== src/Events/Fold.antt =====
-- `fold_requests` of crates/common/src/domain/inbox_events.rs: the state of every request of an item,
-- folded from its event log. The SHA-1 of the sha1 crate is the parameter `sha1_hex`.
pub mod Track
pub mod Redaction
use sebenza.Base.{
  ℕ, Text, Bool, true, false, not, Option, none, some, List, [], ◌∷◌, ◌++◌, ◌==◌, all, find, max,
  text_eq, if◌then◌else◌,
}
use sebenza.Events.{
  InboxEvent, InboxEventKind, RequestView, RequestStatus, WorktreeKey, request_opened, proposal,
  triage_failed, rejected, resolution_confirmed, delivered, delivery_failed, request_id_of,
}

-- `views.iter_mut().find(p)` and the writes through the reference that it returns
unfoldable pub modify_first {ℓ} : {A : Type ℓ} → (A → Bool) → (A → A) → List A → List A
modify_first p f [] = []
modify_first p f (x ∷ xs) = if p x then f x ∷ xs else x ∷ modify_first p f xs

unfoldable pub is_undecided : RequestStatus → Bool
is_undecided RequestStatus.opened = true
is_undecided RequestStatus.proposed = true
is_undecided _ = false

abbrev pub new_view : Text → WorktreeKey → Text → Text → List Text → Text → RequestView
new_view rid worktree title body warnings ts = record {
  request_id = rid;
  worktree = worktree;
  title = title;
  body = body;
  status = RequestStatus.opened;
  flagged = false;
  proposal_id = none;
  proposal = none;
  proposal_hash = none;
  proposal_warnings = [];
  content_hash = none;
  confirmed_text = none;
  last_reason = none;
  last_error = none;
  attempts = 0;
  warnings = warnings;
  opened_at = ts;
}

-- `fold_requests(..).into_iter().find(|r| r.request_id == request_id)`
unfoldable pub find_view : Text → List RequestView → Option RequestView
find_view rid views = find (λ v. v.request_id == rid) views

module _ (sha1_hex : Text → Text) where
  -- `content_hash`, over `FileRevision::of_body`
  abbrev pub content_hash : Text → Text
  content_hash text = sha1_hex text

  -- The second `match` of the loop: what an event does to the view of its request.
  unfoldable pub apply_kind : RequestView → InboxEventKind → RequestView
  unfolding is_undecided
  apply_kind v (proposal _ pid body _ ws) =
      if is_undecided v.status
      then record v {
        status = RequestStatus.proposed;
        flagged = false;
        proposal_id = some pid;
        proposal = some body;
        proposal_hash = some (content_hash body);
        proposal_warnings = ws;
      }
      else v
  apply_kind v (triage_failed _ error) = record v { flagged = true; last_error = some error }
  apply_kind v (rejected _ reason) = record v {
    status = RequestStatus.opened;
    proposal_id = none;
    proposal = none;
    proposal_hash = none;
    proposal_warnings = [];
    last_reason = some reason;
  }
  apply_kind v (resolution_confirmed _ _ hash text _ _) = record v {
    status = RequestStatus.confirmed;
    flagged = false;
    content_hash = some hash;
    confirmed_text = some text;
  }
  apply_kind v (delivered _ attempt) = record v {
    status = RequestStatus.resolved;
    flagged = false;
    attempts = max v.attempts attempt;
  }
  apply_kind v (delivery_failed _ attempt error) = record v {
    status = RequestStatus.delivery_failed;
    flagged = true;
    attempts = max v.attempts attempt;
    last_error = some error;
  }
  apply_kind v _ = v

  -- One round of the loop, on the event's time and kind.
  unfoldable pub fold_kind : List RequestView → Text → InboxEventKind → List RequestView
  unfolding request_id_of
  fold_kind views ts (request_opened rid worktree title body ws) =
      if all (λ v. not (v.request_id == rid)) views
      then views ++ new_view rid worktree title body ws ts ∷ []
      else views
  fold_kind views ts k = elim (request_id_of k) [
    | none ↦ views
    | some rid ↦ modify_first (λ v. v.request_id == rid) (λ v. apply_kind v k) views
  ]

  unfoldable pub fold_from : List RequestView → List InboxEvent → List RequestView
  fold_from views [] = views
  fold_from views (e ∷ events) = fold_from (fold_kind views e.ts e.kind) events

  unfoldable pub fold_requests : List InboxEvent → List RequestView
  unfolding fold_from
  fold_requests events = fold_from [] events
