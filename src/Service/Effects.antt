-- ===== src/Service/Effects.antt =====
-- What a method of the inbox service leaves behind: one event more, or everything as it was.
use sebenza.Base.{
  subst, sym, not, Bool, Text, ◌≡◌, refl, true, Option, some, List, [], ◌∷◌, ◌++◌, insert, lookup,
  lookup-insert_same, unwrap_or, ap, ◌∙◌,
}
use sebenza.Events.{InboxEventKind, apply_redactions, InboxEvent, RequestView, request_id_of}
use sebenza.Events.Fold.{apply_kind}
use sebenza.Events.Fold.Redaction.{lifecycle}
use sebenza.Draft.{parsed}
use sebenza.World.{AuditRecord, record_audit, raise, World, Env, ok, err}
use sebenza.World.Outcome.{Outcome-map_err, Outcome, Outcome-bind}
use sebenza.Service.{of_store, M, InboxServiceError}
use sebenza.Service.Reads.{
  appended, after_append, Outcome-append_event, log_of, Readable, Outcome-events,
  Outcome-find_request,
}
use sebenza.Service.Views.{view_of, view_of-append}
use sebenza.Service.Decisions.{request}
use sebenza.Service.Requests.{events, parsed_draft}
use sebenza.Service.{find_request, store}
use sebenza.Store
use sebenza.Store.{EventAuthor, append_event, is_ulid, unparsed, read_events}
use sebenza.World.{map_err, refuse_if, or_raise, ◌>>=◌}

-- The drafts, the logs and what the panes were sent are as they were.
pub record SameStore {V : Type 0} (w w' : World V) : Type 0 where
  pub drafts : w'.drafts ≡ w.drafts
  pub logs : w'.logs ≡ w.logs
  pub sends : w'.sends ≡ w.sends

pub SameStore-refl : {V : Type 0} (w : World V) → SameStore w w
SameStore-refl w = record { drafts = refl; logs = refl; sends = refl }

-- One event went to the end of the log of item `id`, and nothing else that readers see changed.
pub record Wrote {V : Type 0} (id : Text) (e : InboxEvent) (w w' : World V) : Type 0 where
  pub drafts : w'.drafts ≡ w.drafts
  pub logs : w'.logs ≡ insert id (log_of id w ++ e ∷ []) w.logs
  pub sends : w'.sends ≡ w.sends

abbrev log_in : Text → List (Text × List InboxEvent) → List InboxEvent
log_in id logs = unwrap_or (lookup id logs) []

-- An event that is appended to the log of `id` in one of two worlds with the same logs.
pub insert-log_of :
    {V : Type 0} (id : Text) (e : InboxEvent) (w w1 : World V)
    → w1.logs ≡ w.logs
    → insert id (log_of id w1 ++ e ∷ []) w1.logs ≡ insert id (log_of id w ++ e ∷ []) w.logs
insert-log_of id e w w1 same = ap (λ l. insert id (log_in id l ++ e ∷ []) l) same

pub log_of-insert :
    {V : Type 0} (id : Text) (w w' : World V) (log : List InboxEvent)
    → w'.logs ≡ insert id log w.logs
    → log_of id w' ≡ log
log_of-insert id w w' log logs =
    ap (log_in id) logs ∙ ap (λ o. unwrap_or o []) (lookup-insert_same id log w.logs)

module _ {V : Type 0} (env : Env V) (id rid : Text) where
  -- The reader's view of the request, of which `P` holds.
  abbrev pub Shows : (RequestView → Type 0) → World V → Type 0
  Shows P w = (v : RequestView) × (view_of env id rid w ≡ some v) × P v

  module _ (w w' : World V) (e : InboxEvent) (wrote : Wrote id e w w') where
    pub Wrote-log_of : log_of id w' ≡ log_of id w ++ e ∷ []
    Wrote-log_of = log_of-insert id w w' (log_of id w ++ e ∷ []) wrote.logs

    pub Wrote-Readable : Readable id w → Readable id w'
    Wrote-Readable r = record {
      valid = r.valid;
      draft = r.draft;
      found = ap (lookup id) wrote.drafts ∙ r.found;
    }

    -- The view after the event has the state that the event gives it.
    pub Wrote-Shows :
        (v : RequestView)
        → request_id_of e.kind ≡ some rid
        → view_of env id rid w ≡ some v
        → Shows (λ v'. lifecycle v' ≡ lifecycle (apply_kind env.sha1_hex v e.kind)) w'
    Wrote-Shows v own was = view_of-append env id rid w w' e v Wrote-log_of own was

-- The read of a readable item, step by step.
pub bind-ok :
    {V E A B : Type 0} (m : M V E A) (f : A → M V E B) (w w' : World V) (a : A)
    → m w ≡ (ok a, w')
    → (m >>= f) w ≡ f a w'
unfolding ◌>>=◌
bind-ok m f w w' a e = ap (λ p. elim p.0 [ ok x ↦ f x p.1 | err y ↦ raise y p.1 ]) e

pub map_err-ok :
    {V E F A : Type 0} (g : E → F) (m : M V E A) (w w' : World V) (a : A)
    → m w ≡ (ok a, w')
    → map_err g m w ≡ (ok a, w')
unfolding map_err
map_err-ok g m w w' a e = ap (λ p. elim p.0 [ ok x ↦ (ok x, p.1) | err y ↦ (err (g y), p.1) ]) e

refuse_if-ok :
    {V E : Type 0} (b : Bool) (e : E) (w : World V) → b ≡ true → refuse_if (not b) e w ≡ (ok tt, w)
unfolding refuse_if
refuse_if-ok b e w h = rw h refl

module _ {V : Type 0} (id : Text) (w : World V) (r : Readable id w) where
  pub get-ok : Store.get id w ≡ (ok (parsed r.draft), w)
  unfolding Store.get
  get-ok =
      bind-ok _ _ w w tt (refuse_if-ok (is_ulid id) _ w r.valid)
      ∙ bind-ok _ _ w w (lookup id w.drafts) refl
      ∙ rw r.found refl

  pub read_events-ok : read_events id w ≡ (ok (log_of id w), w)
  unfolding read_events
  read_events-ok = bind-ok _ _ w w tt (refuse_if-ok (is_ulid id) _ w r.valid)

  pub parsed_draft-ok : parsed_draft id w ≡ (ok r.draft, w)
  unfolding parsed_draft
  parsed_draft-ok = bind-ok _ _ w w (parsed r.draft) (map_err-ok store (Store.get id) w w _ get-ok)

  pub events-ok : events id w ≡ (ok (apply_redactions (log_of id w)), w)
  unfolding events
  events-ok =
      bind-ok _ _ w w r.draft parsed_draft-ok
      ∙ bind-ok _ _ w w _ (map_err-ok store (read_events id) w w _ read_events-ok)

  -- A request of a readable item is read back.
  pub request-ok :
      (env : Env V) (rid : Text) (v : RequestView)
      → view_of env id rid w ≡ some v
      → request env id rid w ≡ (ok v, w)
  unfolding request view_of find_request or_raise
  request-ok env rid v was = bind-ok _ _ w w _ events-ok ∙ rw was refl

module _ {ℓ} {V B : Type 0} (env : Env V) (id : Text) (w : World V) (Q : B → World V → Type ℓ)
    (R : InboxServiceError → World V → Type ℓ) where
  -- A method that begins with the log of the item and the view of the request.
  pub Outcome-view :
      (rid : Text) (k : List InboxEvent → RequestView → M V InboxServiceError B)
      → ((e : InboxServiceError) → R e w)
      → (Readable id w
          → (v : RequestView) → view_of env id rid w ≡ some v
          → Outcome (k (apply_redactions (log_of id w)) v w) Q R)
      → Outcome ((events id >>= λ log. find_request env log rid >>= k log) w) Q R
  unfolding view_of
  Outcome-view rid k fails works = Outcome-bind _ _ w Q R (
      Outcome-events id w _ R fails
        λ r. Outcome-bind _ _ w Q R (Outcome-find_request env w _ rid _ R (fails _) (works r)))

  -- An event and its audit record.
  pub Outcome-write :
      (author : EventAuthor) (parent : Option Text) (kind : InboxEventKind)
      (audit : InboxEvent → AuditRecord) (k : InboxEvent → M V InboxServiceError B)
      → Readable id w
      → ((w' : World V)
          → Wrote id (appended env id w author parent kind) w w'
          → Outcome (k (appended env id w author parent kind) w') Q R)
      → Outcome
          ((of_store (append_event env id author parent kind) >>= λ e.
              record_audit (audit e) >>= λ _. k e)
            w)
          Q
          R
  unfolding after_append
  Outcome-write author parent kind audit k r works = Outcome-bind _ _ w Q R (
      Outcome-map_err store _ w _ R (
        Outcome-append_event env id w author parent kind _ _ r
          (Outcome-bind _ _ _ Q R (works _ (record { drafts = refl; logs = refl; sends = refl })))))

-- A method that ends with the view of the request.
pub Outcome-request {ℓ} :
    {V : Type 0} (env : Env V) (id : Text) (w : World V) (Q : RequestView → World V → Type ℓ)
    (R : InboxServiceError → World V → Type ℓ) (rid : Text) (v : RequestView)
    → Readable id w
    → view_of env id rid w ≡ some v
    → Q v w
    → Outcome (request env id rid w) Q R
Outcome-request env id w Q R rid v r shown q =
    subst (λ p. Outcome p Q R) (sym (request-ok id w r env rid v shown)) q
