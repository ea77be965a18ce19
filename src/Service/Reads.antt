-- ===== src/Service/Reads.antt =====
-- The reads that every decision begins with, and the append that it ends with: their outcomes.
use sebenza.Base.{
  Text, ◌≡◌, refl, true, not, Option, none, some, List, [], ◌∷◌, ◌++◌, lookup, insert, unwrap_or,
  is_some, text_eq, arith, suc,
}
use sebenza.Draft.{InboxDraft, InboxDraftView, parsed, raw}
use sebenza.Events.{InboxEvent, InboxEventKind, RequestView, apply_redactions}
use sebenza.Events.Fold.{fold_requests, find_view}
use sebenza.Store
use sebenza.Store.{
  InboxStoreError, EventAuthor, is_ulid, append_event, read_events, inbox_event_schema_version,
  unparsed,
}
use sebenza.World.{pure, raise, World, Env, M}
use sebenza.World.Outcome.{
  Outcome, Outcome-bind, Outcome-map_err, Outcome-refuse_if, Outcome-or_raise,
}
use sebenza.Service.{InboxServiceError, store, find_request, unknown_request}
use sebenza.Service.Requests.{parsed_draft, events}

-- The log of an item, and the draft that it belongs to.
abbrev pub log_of : {V : Type 0} → Text → World V → List InboxEvent
log_of id w = unwrap_or (lookup id w.logs) []

-- The item can be read: its id is a ULID and its draft is there and parses.
pub record Readable {V : Type 0} (id : Text) (w : World V) : Type 0 where
  pub valid : is_ulid id ≡ true
  pub draft : InboxDraft V
  pub found : lookup id w.drafts ≡ some (parsed draft)

module _ {ℓ} {V : Type 0} (id : Text) (w : World V) where
  module _ (Q : InboxDraftView V → World V → Type ℓ) (R : InboxStoreError → World V → Type ℓ) where
    pub Outcome-get :
        ((e : InboxStoreError) → R e w)
        → ((v : InboxDraftView V) → is_ulid id ≡ true → lookup id w.drafts ≡ some v → Q v w)
        → Outcome (Store.get id w) Q R
    unfolding Store.get
    Outcome-get fails works = Outcome-bind _ _ w Q R (
        Outcome-refuse_if w _ R (not (is_ulid id)) _ (λ _. fails _)
          λ valid.
            Outcome-bind _ _ w Q R (branch (lookup id w.drafts) (ground (arith, valid)) refl))
      where
        branch :
            (o : Option (InboxDraftView V))
            → is_ulid id ≡ true
            → lookup id w.drafts ≡ o
            → Outcome {V = V} {E = InboxStoreError} {A = InboxDraftView V}
                ((elim o as (λ _. M V InboxStoreError (InboxDraftView V)) [
                  | none ↦ raise (Store.not_found id)
                  | some view ↦ pure view
                ])
                  w)
                Q
                R
        branch none valid e = fails _
        branch (some v) valid e = works v valid e

  module _ (Q : InboxDraft V → World V → Type ℓ) (R : InboxServiceError → World V → Type ℓ) where
    pub Outcome-parsed_draft :
        ((e : InboxServiceError) → R e w)
        → ((r : Readable id w) → Q r.draft w)
        → Outcome (parsed_draft id w) Q R
    unfolding parsed_draft
    Outcome-parsed_draft fails works = Outcome-bind _ _ w Q R (
        Outcome-map_err store (Store.get id) w _ R
          (Outcome-get _ _ (λ e. fails (store e)) λ v valid e. by_view v valid e))
      where
        by_view :
            (v : InboxDraftView V)
            → is_ulid id ≡ true
            → lookup id w.drafts ≡ some v
            → Outcome {V = V} {E = InboxServiceError} {A = InboxDraft V}
                ((elim v as (λ _. M V InboxServiceError (InboxDraft V)) [
                  | parsed d ↦ pure d
                  | raw i _ error ↦ raise (store (unparsed i error))
                ])
                  w)
                Q
                R
        by_view (parsed d) valid e = works (record { valid = valid; draft = d; found = e })
        by_view (raw i t error) valid e = fails _

  pub Outcome-read_events :
      (Q : List InboxEvent → World V → Type ℓ) (R : InboxStoreError → World V → Type ℓ)
      → Readable id w
      → Q (log_of id w) w
      → Outcome (read_events id w) Q R
  unfolding read_events
  Outcome-read_events Q R r works =
      Outcome-bind _ _ w Q R
        (Outcome-refuse_if w _ R (not (is_ulid id)) _ (λ h. cc (r.valid, h)) (λ _. works))

  -- The read of a log, with redactions applied.
  pub Outcome-events :
      (Q : List InboxEvent → World V → Type ℓ) (R : InboxServiceError → World V → Type ℓ)
      → ((e : InboxServiceError) → R e w)
      → (Readable id w → Q (apply_redactions (log_of id w)) w)
      → Outcome (events id w) Q R
  unfolding events
  Outcome-events Q R fails works = Outcome-bind _ _ w Q R (
      Outcome-parsed_draft _ R fails λ r.
        Outcome-bind _ _ w Q R
          (Outcome-map_err store (read_events id) w _ R (Outcome-read_events _ _ r (works r))))

module _ {ℓ} {V : Type 0} (env : Env V) (w : World V) (log : List InboxEvent) (rid : Text) where
  pub Outcome-find_request :
      (Q : RequestView → World V → Type ℓ) (R : InboxServiceError → World V → Type ℓ)
      → (R (unknown_request rid) w)
      → ((v : RequestView) → find_view rid (fold_requests env.sha1_hex log) ≡ some v → Q v w)
      → Outcome (find_request env log rid w) Q R
  unfolding find_request
  Outcome-find_request Q R fails works = Outcome-or_raise w Q R _ _ (λ _. fails) works

-- The event that an append writes in world `w`, and the world after it.
module _ {V : Type 0} (env : Env V) (id : Text) (w : World V) where
  unfoldable pub appended : EventAuthor → Option Text → InboxEventKind → InboxEvent
  appended author parent kind = record {
    schema_version = inbox_event_schema_version;
    event_id = env.ulid w.ids_drawn;
    ts = env.now_rfc3339 w.clock_reads;
    author = author.kind;
    caller = author.caller;
    parent_event_id = parent;
    kind = kind;
  }

  unfoldable pub after_append : InboxEvent → World V
  after_append e = record w {
    ids_drawn = suc w.ids_drawn;
    clock_reads = suc w.clock_reads;
    logs = insert id (log_of id w ++ e ∷ []) w.logs;
  }

  pub Outcome-append_event {ℓ} :
      (author : EventAuthor) (parent : Option Text) (kind : InboxEventKind)
      (Q : InboxEvent → World V → Type ℓ) (R : InboxStoreError → World V → Type ℓ)
      → Readable id w
      → Q (appended author parent kind) (after_append (appended author parent kind))
      → Outcome (append_event env id author parent kind w) Q R
  unfolding append_event appended after_append
  Outcome-append_event author parent kind Q R r works = Outcome-bind _ _ w Q R (
      Outcome-refuse_if w _ R (not (is_ulid id)) _ (λ h. cc (r.valid, h))
        λ _. Outcome-bind _ _ w Q R (
          Outcome-bind _ _ w Q R (
            Outcome-refuse_if w _ R (not (is_some (lookup id w.drafts))) _ (λ h. cc (r.found, h))
              λ _. Outcome-bind _ _ _ Q R (Outcome-bind _ _ _ Q R (Outcome-bind _ _ _ Q R works)))))
