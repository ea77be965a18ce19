-- ===== src/Service/Triage.antt =====
-- What triage may do to a request, by the methods of crates/common/src/services/inbox_service.rs that
-- record a proposal, advice and a failure.
use sebenza.Base.{Text, ◌≡◌, refl, ap, ◌∙◌, true, false, not, Option, none, some, arith, take}
use sebenza.Events.{InboxEvent, RequestView, RequestStatus, request_id_of, proposal}
use sebenza.Events.Fold.{apply_kind, is_undecided}
use sebenza.Events.Fold.Redaction.{lifecycle}
use sebenza.World.{World, Env}
use sebenza.World.Outcome.{Outcome-if, Outcome, Outcome-bind, Outcome-refuse_if}
use sebenza.Service.{max_error_chars}
use sebenza.Service.Reads.{appended}
use sebenza.Service.Views.{view_of}
use sebenza.Service.Effects.{
  SameStore, SameStore-refl, Wrote, Shows, Wrote-Shows, Outcome-view, Outcome-write,
}
use sebenza.Service.Decisions.{record_proposal, record_advice, record_triage_failed, is_open}

module _ {V : Type 0} (env : Env V) (id rid : Text) (w : World V) where
  -- Event `e` was written for the request of view `v`, and its state is now what `f` makes of it.
  pub record Moves (f : RequestView → RequestView) (e : InboxEvent) (w' : World V) : Type 0 where
    pub view : RequestView
    pub was : view_of env id rid w ≡ some view
    pub written : Wrote id e w w'
    pub is : Shows env id rid (λ v'. lifecycle v' ≡ lifecycle (f view)) w'

  moves :
      (e : InboxEvent) (w' : World V) (v : RequestView)
      → Wrote id e w w'
      → request_id_of e.kind ≡ some rid
      → view_of env id rid w ≡ some v
      → Moves (λ u. apply_kind env.sha1_hex u e.kind) e w'
  moves e w' v wrote own was = record {
    view = v;
    was = was;
    written = wrote;
    is = Wrote-Shows env id rid w w' e wrote v own was;
  }

  -- Advice either fails, with the drafts, the logs and the panes as they were, or it writes one event,
  -- and the state of the request, its three shown texts apart, is for a reader what it was: no advice
  -- decides a request.
  pub record_advice-Moves :
      (body : Text)
      → Outcome (record_advice env id rid body w) (Moves (λ v. v)) (λ _ w'. SameStore w w')
  unfolding record_advice appended apply_kind request_id_of
  record_advice-Moves body =
      let same = SameStore-refl w in
      Outcome-bind _ _ w _ _ (
        Outcome-refuse_if w _ _ _ _ (λ _. same)
          λ _. Outcome-bind _ _ w _ _ (
            Outcome-refuse_if w _ _ _ _ (λ _. same)
              λ _.
                Outcome-view env id w _ _ rid _ (λ _. same)
                  λ r v was.
                    Outcome-write env id w _ _ _ _ _ _ _ r λ w' wrote. moves _ w' v wrote refl was))

  -- The record of a failed triage either fails, with the drafts, the logs and the panes as they were, or
  -- it writes one event, and a reader sees the request flagged, with the first 500 characters of the
  -- error and all else of its state, its three shown texts apart, as it was.
  pub record_triage_failed-Moves :
      (error : Text)
      → Outcome
          (record_triage_failed env id rid error w)
          (Moves (λ v. record v { flagged = true; last_error = some (take max_error_chars error) }))
          (λ _ w'. SameStore w w')
  unfolding record_triage_failed appended apply_kind request_id_of
  record_triage_failed-Moves error =
      Outcome-view env id w _ _ rid _ (λ _. SameStore-refl w)
        λ r v was. Outcome-write env id w _ _ _ _ _ _ _ r λ w' wrote. moves _ w' v wrote refl was

  -- The view of a request once `body` is proposed for it.
  abbrev pub with_proposal : Text → Text → RequestView → RequestView
  with_proposal pid body v = record v {
    status = RequestStatus.proposed;
    flagged = false;
    proposal_id = some pid;
    proposal = some body;
    proposal_hash = some (env.sha1_hex body);
    proposal_warnings = env.scan_hits body;
  }

  is_open-apply_kind :
      (v : RequestView) (r pid body rationale : Text)
      → is_open v.status ≡ true
      → apply_kind env.sha1_hex v (proposal r pid body rationale (env.scan_hits body))
        ≡ with_proposal pid body v
  unfolding is_open apply_kind is_undecided
  is_open-apply_kind v r pid body rationale h = ground arith

  -- The answer to a proposal: nothing where the request is no longer open, or else the event of a
  -- request that was open and now has the proposal.
  pub data Proposed (body : Text) : Option InboxEvent → World V → Type 0 where
    skipped :
        (w' : World V)
        → SameStore w w'
        → Shows env id rid (λ v. is_open v.status ≡ false) w
        → Proposed body none w'
    proposed :
        (e : InboxEvent) (w' : World V) (m : Moves (with_proposal (env.ulid w.ids_drawn) body) e w')
        → is_open m.view.status ≡ true
        → Proposed body (some e) w'

  Wrote-Proposed :
      (e : InboxEvent) (w' : World V) (v : RequestView) (body rationale : Text)
      → e.kind ≡ proposal rid (env.ulid w.ids_drawn) body rationale (env.scan_hits body)
      → Wrote id e w w'
      → view_of env id rid w ≡ some v
      → is_open v.status ≡ true
      → Proposed body (some e) w'
  unfolding request_id_of
  Wrote-Proposed e w' v body rationale kind wrote was open_ =
      let (v', now_, same) = Wrote-Shows env id rid w w' e wrote v (ap request_id_of kind) was in
      let made =
        ap (apply_kind env.sha1_hex v) kind
        ∙ is_open-apply_kind v rid (env.ulid w.ids_drawn) body rationale open_ in
      proposed e w'
        (record { view = v; was = was; written = wrote; is = (v', now_, same ∙ ap lifecycle made) })
        open_

  -- A proposal either fails, with the drafts, the logs and the panes as they were; or it is dropped,
  -- with these as they were too, and the request is not open; or it writes one event, the request was
  -- open, and a reader sees it proposed under the id drawn for the proposal.
  pub record_proposal-Proposed :
      (body rationale : Text)
      → Outcome
          (record_proposal env id rid body rationale w)
          (Proposed body)
          (λ _ w'. SameStore w w')
  unfolding record_proposal appended request_id_of
  record_proposal-Proposed body rationale =
      let same = SameStore-refl w in
      Outcome-bind _ _ w _ _ (
        Outcome-refuse_if w _ _ _ _ (λ _. same)
          λ _. Outcome-bind _ _ w _ _ (
            Outcome-refuse_if w _ _ _ _ (λ _. same)
              λ _.
                Outcome-view env id w _ _ rid _ (λ _. same)
                  λ r v was.
                    Outcome-if w _ _ (not (is_open v.status)) _ _
                      (λ closed. skipped _ same (v, was, ground (arith, closed)))
                      λ is_. Outcome-bind _ _ w _ _ (
                        Outcome-write env id _ _ _ _ _ _ _ _
                          (record { valid = r.valid; draft = r.draft; found = r.found })
                          λ w' wrote.
                            Wrote-Proposed _ w' v body rationale refl
                              (record {
                                drafts = wrote.drafts;
                                logs = wrote.logs;
                                sends = wrote.sends;
                              })
                              was (ground (arith, is_)))))
