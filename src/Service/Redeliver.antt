-- ===== src/Service/Redeliver.antt =====
-- `redeliver` of crates/common/src/services/inbox_service.rs: a failed delivery, tried again.
use sebenza.Service.Reads.{log_of}
use sebenza.Service.Fresh.{Attempted-at, is_orderly, next_attempt-new}
use sebenza.Base.{◌+◌, Text, ◌≡◌, refl, true, false, some, Option, arith}
use sebenza.Events.{InboxEvent, RequestView, RequestStatus}
use sebenza.Events.Fold.{is_undecided}
use sebenza.World.{World, Env}
use sebenza.World.Outcome.{Outcome, Outcome-bind, Outcome-refuse_if, Outcome-or_raise}
use sebenza.Service.Views.{view_of}
use sebenza.Service.Effects.{SameStore, SameStore-refl, Outcome-view}
use sebenza.Service.Decisions.{redeliver, is_delivery_failed}
use sebenza.Service.Deliver.{Attempted}
use sebenza.Service.Confirm.{Outcome-delivers}

is_delivery_failed-decided :
    (s : RequestStatus) → is_delivery_failed s ≡ true → is_undecided s ≡ false
unfolding is_delivery_failed is_undecided
is_delivery_failed-decided s h = ground arith

module _ {V : Type 0} (env : Env V) (id rid : Text) (w : World V) where
  -- A redelivery that went through: the delivery had failed; a new attempt to deliver the confirmed text was
  -- made, in the next number; and a reader sees the answer, which is decided.
  pub record Redelivered (v' : RequestView) (w' : World V) : Type 0 where
    pub view : RequestView
    pub was : view_of env id rid w ≡ some view
    pub failed : is_delivery_failed view.status ≡ true
    pub text : Text
    pub text_is : view.confirmed_text ≡ some text
    pub between : World V
    pub unchanged : SameStore w between
    pub event : InboxEvent
    pub attempt : Attempted view.worktree rid text env id (view.attempts + 1) between event w'
    pub answered : view_of env id rid w' ≡ some v'
    pub decided : is_undecided v'.status ≡ false

  -- In a log whose deliveries of the request all follow its opening and have numbers with a next one in 32 bits,
  -- a redelivery either fails, with the drafts, the logs and the panes as they were, or goes through as
  -- `Redelivered` says: the delivery of the request had failed; the confirmed text is pasted for the
  -- request's worktree, if there is a sink, and one event, with the number of the attempts so far and one
  -- more, says what the pane answered; and a reader of the item sees the answer, a request that
  -- is decided.
  pub redeliver-Redelivered :
      (caller : Option Text)
      → is_orderly rid false (log_of id w) ≡ true
      → Outcome (redeliver env id rid caller w) Redelivered (λ _ w'. SameStore w w')
  unfolding redeliver view_of
  redeliver-Redelivered caller orderly =
      let same = SameStore-refl w in
      Outcome-view env id w _ _ rid _ (λ _. same)
        λ r v was. Outcome-bind _ _ w _ _ (
          Outcome-refuse_if w _ _ _ _ (λ _. same)
            λ failed. Outcome-bind _ _ w _ _ (
              Outcome-or_raise w _ _ _ _ (λ _. same)
                λ text text_is. Outcome-bind _ _ w _ _ (
                  let failed' : is_delivery_failed v.status ≡ true = ground (arith, failed) in
                  Outcome-delivers env _ id rid text _ v.worktree _ caller v _ _
                    (record { valid = r.valid; draft = r.draft; found = r.found }) was
                    (is_delivery_failed-decided v.status failed')
                    (next_attempt-new env id rid w v was orderly).1
                    λ e w' v' made answered after. record {
                      view = v;
                      was = was;
                      failed = failed';
                      text = text;
                      text_is = text_is;
                      between = _;
                      unchanged = record { drafts = refl; logs = refl; sends = refl };
                      event = e;
                      attempt =
                          Attempted-at v.worktree rid text env id _ _ _ e w'
                            (next_attempt-new env id rid w v was orderly).0 made;
                      answered = answered;
                      decided = after;
                    })))
