-- ===== src/Service/Redact.antt =====
-- `redact` of crates/common/src/services/inbox_service.rs: at most one tombstone for an event.
use sebenza.Base.{Text, ◌≡◌, refl, ap, ◌∙◌, some, none, Option, find, text_beq_refl, []}
use sebenza.Events.{InboxEvent, redacted}
use sebenza.World.{World, Env, ok}
use sebenza.World.Outcome.{
  Outcome, Outcome-bind, Outcome-map_err, Outcome-or_raise, Outcome-elim, Outcome-mono,
}
use sebenza.Service.{store}
use sebenza.Store.{read_events}
use sebenza.Service.Reads.{Readable, log_of, appended, Outcome-parsed_draft, Outcome-read_events}
use sebenza.Service.Effects.{
  SameStore, SameStore-refl, Wrote, Wrote-log_of, Wrote-Readable, Outcome-write, bind-ok,
  map_err-ok, read_events-ok, parsed_draft-ok,
}
use sebenza.Service.Decisions.{redact, is_tombstone}
use sebenza.Service.Delivered.{find-last}

module _ {V : Type 0} (env : Env V) (id event_id : Text) where
  -- The tombstone of the event, if the log has one.
  abbrev pub tombstone_of : World V → Option InboxEvent
  tombstone_of w = find (λ e. is_tombstone event_id e.kind) (log_of id w)

  redact-again :
      (caller : Option Text) (w : World V) (e : InboxEvent)
      → Readable id w
      → tombstone_of w ≡ some e
      → redact env id event_id caller w ≡ (ok e, w)
  unfolding redact
  redact-again caller w e r found =
      bind-ok _ _ w w _ (parsed_draft-ok id w r)
      ∙ bind-ok _ _ w w _ (map_err-ok store (read_events id) w w _ (read_events-ok id w r))
      ∙ rw found refl

  -- A redaction that went through: the tombstone was there and nothing changed, or it is the one event
  -- that was written.
  pub data Tombstoned (w : World V) : InboxEvent → World V → Type 0 where
    there : (e : InboxEvent) → Readable id w → tombstone_of w ≡ some e → Tombstoned w e w
    buried :
        (e : InboxEvent) (w' : World V)
        → Readable id w
        → tombstone_of w ≡ none
        → e.kind ≡ redacted event_id
        → Wrote id e w w'
        → Tombstoned w e w'

  -- A redaction either fails, with the drafts, the logs and the panes as they were; or it answers with
  -- the tombstone that the log of a readable item already has, and changes nothing; or the log has
  -- none, and one event, the tombstone, is written.
  pub redact-Tombstoned :
      (caller : Option Text) (w : World V)
      → Outcome (redact env id event_id caller w) (Tombstoned w) (λ _ w'. SameStore w w')
  unfolding redact appended
  redact-Tombstoned caller w = Outcome-bind _ _ w _ _ (
      Outcome-parsed_draft id w _ _ (λ _. SameStore-refl w)
        λ r. Outcome-bind _ _ w _ _ (
          Outcome-map_err store _ w _ _ (
            Outcome-read_events id w _ _ r (
              Outcome-elim w _ _ (tombstone_of w) _ _
                (λ new. Outcome-bind _ _ w _ _ (
                  Outcome-or_raise w _ _ _ _ (λ _. SameStore-refl w)
                    λ target _.
                      Outcome-write env id w _ _ _ _ _ _ _ r
                        λ w' wrote. buried _ w' r new refl wrote))
                λ e found. there e r found))))

  -- A redaction either fails, with the drafts, the logs and the panes as they were, or its answer is
  -- what a second one of the same event answers, whoever asks, and the second changes nothing.
  pub redact_idem :
      (caller again_caller : Option Text) (w : World V)
      → Outcome
          (redact env id event_id caller w)
          (λ e w'. redact env id event_id again_caller w' ≡ (ok e, w'))
          (λ _ w'. SameStore w w')
  redact_idem caller again_caller w =
      Outcome-mono (redact env id event_id caller w) _ _ (λ _ w'. SameStore w w')
        (λ _ w'. SameStore w w') (λ e w' t. by_tombstone e w' t) (λ _ _ same. same)
        (redact-Tombstoned caller w)
    where
      by_tombstone :
          (e : InboxEvent) (w' : World V)
          → Tombstoned w e w'
          → redact env id event_id again_caller w' ≡ (ok e, w')
      by_tombstone e w' (there _ r found) = redact-again again_caller w' e r found
      by_tombstone e w' (buried _ _ r new kind wrote) =
          redact-again again_caller w' e (Wrote-Readable env id [] w w' e wrote r) (
            rw (Wrote-log_of env id [] w w' e wrote) (
              find-last _ (log_of id w) e new
                (ap (is_tombstone event_id) kind ∙ text_beq_refl event_id)))
