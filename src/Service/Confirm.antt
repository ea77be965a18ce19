-- ===== src/Service/Confirm.antt =====
-- `confirm_resolution` and `redeliver` of crates/common/src/services/inbox_service.rs.
use sebenza.Service.Fresh.{Attempted-at, find_still, is_orderly, next_attempt-new}
use sebenza.Base.{
  find, ◌+◌, is_blank, ◌==◌, text_eq, Bool, is_some_and, text_beq_iff, or_else, ℕ, Text, ◌≡◌, refl,
  ap, true, false, not, none, some, Option, List, arith, unwrap_or,
}
use sebenza.Events.{InboxEvent, RequestView, WorktreeKey, resolution_confirmed, request_id_of}
use sebenza.Events.Fold.{apply_kind, is_undecided}
use sebenza.World.{World, Env, ◌>>=◌}
use sebenza.World.Outcome.{Outcome, Outcome-bind, Outcome-refuse_if, Outcome-mono}
use sebenza.Service.{InboxServiceError}
use sebenza.Service.Reads.{log_of, Readable, appended}
use sebenza.Service.Views.{view_of}
use sebenza.Service.Effects.{
  log_of-insert, SameStore, SameStore-refl, Wrote, Shows, Wrote-Shows, Wrote-Readable, Outcome-view,
  Outcome-write, Outcome-request,
}
use sebenza.Service.Decisions.{
  is_attempt, confirm_resolution, request, proposal_on_table, shown_text, cap_body, deliver_attempt,
}
use sebenza.Service.Deliver.{Delivery-new, Attempted, deliver_attempt-Delivery}
use sebenza.Service.Delivered.{Delivery-Readable, Delivery-Shows, decided-by_lifecycle}

module _ {ℓ} {V : Type 0} (env : Env V) (w : World V) where
  Outcome-cap_body :
      (body : Option Text) (Q : Unit {0} → World V → Type ℓ)
      (R : InboxServiceError → World V → Type ℓ)
      → ((e : InboxServiceError) → R e w)
      → Q tt w
      → Outcome (cap_body env body w) Q R
  Outcome-cap_body none Q R fails works = works
  Outcome-cap_body (some b) Q R fails works =
      Outcome-refuse_if w Q R _ _ (λ _. fails _) (λ _. works)

  Outcome-shown_text :
      (p body : Option Text) (Q : Text → World V → Type ℓ)
      (R : InboxServiceError → World V → Type ℓ)
      → ((e : InboxServiceError) → R e w)
      → ((t : Text) → or_else p body ≡ some t → Q t w)
      → Outcome (shown_text env p body w) Q R
  unfolding shown_text
  Outcome-shown_text (some t) body Q R fails works = works t refl
  Outcome-shown_text none (some t) Q R fails works = works t refl
  Outcome-shown_text none none Q R fails works = fails _

module _ {V : Type 0} (env : Env V) (w : World V) where
  -- The end of both methods: the delivery, and the view that answers.
  pub Outcome-delivers :
      (id rid text parent : Text) (worktree : WorktreeKey) (attempt : ℕ) (caller : Option Text)
      (v : RequestView) (Q : RequestView → World V → Type 0)
      (R : InboxServiceError → World V → Type 0)
      → Readable id w
      → view_of env id rid w ≡ some v
      → is_undecided v.status ≡ false
      → find (λ x. is_attempt rid attempt x.kind) (log_of id w) ≡ none
      → ((e : InboxEvent) (w' : World V) (v' : RequestView)
          → Attempted worktree rid text env id attempt w e w'
          → view_of env id rid w' ≡ some v'
          → is_undecided v'.status ≡ false
          → Q v' w')
      → Outcome
          ((deliver_attempt env id worktree rid text attempt caller parent >>= λ _.
              request env id rid)
            w)
          Q
          R
  Outcome-delivers id rid text parent worktree attempt caller v Q R r was decided new works =
      Outcome-bind _ _ w Q R (
        Outcome-mono (deliver_attempt env id worktree rid text attempt caller parent w) _ _
          (λ _ _. ⊥) R
          (λ e w' d.
            let (v', shown, after) =
              Delivery-Shows env worktree rid id attempt text w e w' v d was decided in
            Outcome-request env id w' Q R rid v'
              (Delivery-Readable env worktree rid id attempt text w r e w' d) shown
              (works e w' v' (Delivery-new worktree rid text env id attempt w e w' new d) shown
                after))
          (λ _ _ absurd. elim absurd [ ])
          (deliver_attempt-Delivery worktree rid text env id attempt caller parent w r))

module _ {V : Type 0} (env : Env V) (id rid : Text) (w : World V) where
  -- A confirm that went through: the request was undecided; the hash that came with it is that of the
  -- text on the table, or of the body where there is no proposal; the confirm was written first and
  -- a new attempt to deliver the text was made after it, in the next number; and a reader sees the answer,
  -- which is decided.
  pub record Confirmed (body : Option Text) (hash : Text) (v' : RequestView) (w' : World V)
      : Type 0 where
    pub view : RequestView
    pub was : view_of env id rid w ≡ some view
    pub undecided : is_undecided view.status ≡ true
    pub shown : Text
    pub shown_is : or_else (proposal_on_table view) body ≡ some shown
    pub vouched : hash ≡ env.sha1_hex shown
    pub between : World V
    pub confirm : InboxEvent
    pub kind_is :
        confirm.kind
        ≡ resolution_confirmed rid
            (elim (proposal_on_table view) [ none ↦ none | some _ ↦ view.proposal_id ])
            (env.sha1_hex (unwrap_or body shown))
            (unwrap_or body shown)
            (is_some_and (proposal_on_table view) (λ p. not (p == unwrap_or body shown)))
            (env.scan_hits (unwrap_or body shown))
    pub says_something : is_blank (unwrap_or body shown) ≡ false
    pub written : Wrote id confirm w between
    pub event : InboxEvent
    pub attempt :
        Attempted view.worktree rid
          (unwrap_or body shown)
          env
          id
          (view.attempts + 1)
          between
          event
          w'
    pub answered : view_of env id rid w' ≡ some v'
    pub decided : is_undecided v'.status ≡ false

  apply_kind-decided :
      (v : RequestView) (e : InboxEvent) (pid : Option Text) (hash text : Text) (edited : Bool)
      (ws : List Text)
      → e.kind ≡ resolution_confirmed rid pid hash text edited ws
      → is_undecided (apply_kind env.sha1_hex v e.kind).status ≡ false
  unfolding apply_kind is_undecided
  apply_kind-decided v e pid hash text edited ws kind =
      ap (λ k. is_undecided (apply_kind env.sha1_hex v k).status) kind

  confirm-Shows :
      (e : InboxEvent) (w1 : World V) (v : RequestView) (pid : Option Text) (hash text : Text)
      (edited : Bool) (ws : List Text)
      → e.kind ≡ resolution_confirmed rid pid hash text edited ws
      → Wrote id e w w1
      → view_of env id rid w ≡ some v
      → Shows env id rid (λ v'. is_undecided v'.status ≡ false) w1
  unfolding request_id_of
  confirm-Shows e w1 v pid hash text edited ws kind wrote was =
      let (v', shown, same) = Wrote-Shows env id rid w w1 e wrote v (ap request_id_of kind) was in
      (
        v',
        shown,
        decided-by_lifecycle v' _ same (apply_kind-decided v e pid hash text edited ws kind),
      )

  -- In a log whose deliveries of the request all follow its opening and have numbers with a next one in 32 bits,
  -- a confirm either fails, with the drafts, the logs and the panes as they were, or goes through as
  -- `Confirmed` says: the request was open or proposed; the hash that came with the confirm is that of
  -- the proposal on the table, or of the body where there is none; the event that was written holds
  -- the body sent along, or else the proposal, and the hash of that text, which is not blank; after that
  -- event the text is pasted for the request's worktree, if there is a sink, one event, with the number of the
  -- attempts so far and one more, says what the pane answered, and nothing else of the store changes; and a reader
  -- of the item sees the answer, a request that is decided.
  pub confirm_resolution-Confirmed :
      (body : Option Text) (hash : Text) (caller : Option Text)
      → is_orderly rid false (log_of id w) ≡ true
      → Outcome
          (confirm_resolution env id rid body hash caller w)
          (Confirmed body hash)
          (λ _ w'. SameStore w w')
  unfolding confirm_resolution appended
  confirm_resolution-Confirmed body hash caller orderly =
      let same = SameStore-refl w in
      Outcome-bind _ _ w _ _ (
        Outcome-cap_body env w body _ _ (λ _. same)
          (Outcome-view env id w _ _ rid _ (λ _. same)
            λ r v was. Outcome-bind _ _ w _ _ (
              Outcome-refuse_if w _ _ _ _ (λ _. same)
                λ undecided. Outcome-bind _ _ w _ _ (
                  Outcome-shown_text env w _ _ _ _ (λ _. same)
                    λ shown shown_is. Outcome-bind _ _ w _ _ (
                      Outcome-refuse_if w _ _ _ _ (λ _. same)
                        λ _. Outcome-bind _ _ w _ _ (
                          Outcome-refuse_if w _ _ _ _ (λ _. same)
                            λ says_something. Outcome-bind _ _ w _ _ (
                              Outcome-refuse_if w _ _ _ _ (λ _. same)
                                λ vouched. Outcome-write env id w _ _ _ _ _ _ _ r λ w1 wrote.
                                  let (u, shown1, decided) =
                                    confirm-Shows _ w1 v _ _ _ _ _ refl wrote was in
                                  Outcome-delivers env w1 id rid _ _ v.worktree _ caller u _ _
                                    (Wrote-Readable env id rid w w1 _ wrote r) shown1 decided
                                    (rw (log_of-insert id w w1 _ wrote.logs) (
                                      find_still _ (log_of id w) _
                                        (next_attempt-new env id rid w v was orderly).1 refl))
                                    λ e w' v' made answered after. record {
                                      view = v;
                                      was = was;
                                      undecided = ground (arith, undecided);
                                      shown = shown;
                                      shown_is = shown_is;
                                      vouched =
                                          ground (
                                            arith,
                                            vouched,
                                            text_beq_iff hash (env.sha1_hex shown),
                                          );
                                      between = w1;
                                      confirm = _;
                                      kind_is = refl;
                                      says_something = says_something;
                                      written = wrote;
                                      event = e;
                                      attempt =
                                          Attempted-at v.worktree rid _ env id _ _ w1 e w'
                                            (next_attempt-new env id rid w v was orderly).0 made;
                                      answered = answered;
                                      decided = after;
                                    })))))))
