-- ===== src/Service/Delivered.antt =====
-- What follows from a delivery of crates/common/src/services/inbox_service.rs: it is not made twice, and
-- the request that it is for is decided.
use sebenza.Base.{
  Bool, ℕ, Text, ◌≡◌, refl, ap, ◌∙◌, true, false, none, some, Option, List, [], ◌∷◌, ◌++◌, find,
  arith, text_beq_iff, lookup,
}
use sebenza.Events.{
  InboxEvent, InboxEventKind, RequestView, WorktreeKey, delivered, delivery_failed, request_id_of,
}
use sebenza.Events.Fold.{apply_kind, is_undecided}
use sebenza.Events.Fold.Redaction.{lifecycle}
use sebenza.World.{World, Env, ok}
use sebenza.World.Outcome.{Outcome, Outcome-mono}
use sebenza.Service.{store}
use sebenza.Store.{read_events}
use sebenza.Service.Reads.{log_of, Readable}
use sebenza.Service.Views.{view_of, view_of-append}
use sebenza.Service.Effects.{bind-ok, map_err-ok, read_events-ok, log_of-insert, Shows}
use sebenza.Service.Decisions.{deliver_attempt, is_attempt}
use sebenza.Service.Deliver.{
  Delivery, again, attempted, Attempted-is_attempt, deliver_attempt-Delivery,
}

pub find-last :
    (p : InboxEvent → Bool) (log : List InboxEvent) (e : InboxEvent)
    → find p log ≡ none
    → p e ≡ true
    → find p (log ++ e ∷ []) ≡ some e
unfolding find
find-last p [] e n h = ground (arith, h)
find-last p (x ∷ log) e n h = ground (arith, h, n, find-last p log e)

module _ {V : Type 0} (env : Env V) (worktree : WorktreeKey) (rid : Text) (id : Text)
    (attempt : ℕ) where
  deliver_attempt-again :
      (text : Text) (caller : Option Text) (parent : Text) (w : World V) (e : InboxEvent)
      → Readable id w
      → find (λ x. is_attempt rid attempt x.kind) (log_of id w) ≡ some e
      → deliver_attempt env id worktree rid text attempt caller parent w ≡ (ok e, w)
  unfolding deliver_attempt
  deliver_attempt-again text caller parent w e r found =
      bind-ok _ _ w w _ (map_err-ok store (read_events id) w w _ (read_events-ok id w r))
      ∙ rw found refl

  module _ (text : Text) (w : World V) (r : Readable id w) where
    pub Delivery-Readable :
        (e : InboxEvent) (w' : World V)
        → Delivery worktree rid text env id attempt w e w'
        → Readable id w'
    Delivery-Readable e w' (again _ _) = r
    Delivery-Readable e w' (attempted _ _ _ a) = record {
      valid = r.valid;
      draft = r.draft;
      found = ap (lookup id) a.drafts ∙ r.found;
    }

    Delivery-find :
        (e : InboxEvent) (w' : World V)
        → Delivery worktree rid text env id attempt w e w'
        → find (λ x. is_attempt rid attempt x.kind) (log_of id w') ≡ some e
    Delivery-find e w' (again _ found) = found
    Delivery-find e w' (attempted _ _ new a) = rw (log_of-insert id w w' _ a.logs) (
        find-last _ (log_of id w) e new
          (Attempted-is_attempt worktree rid text env id attempt w e w' a))

    -- For a readable item: `deliver_attempt` succeeds, and a second one for the same attempt, of
    -- whatever text and caller, is answered with the event of the first and changes nothing at all.
    -- The panes are not sent the text twice.
    pub deliver_attempt_once :
        (caller again_caller : Option Text) (again_text parent again_parent : Text)
        → Outcome
            (deliver_attempt env id worktree rid text attempt caller parent w)
            (λ e w'.
              deliver_attempt env id worktree rid again_text attempt again_caller again_parent w'
              ≡ (ok e, w'))
            (λ _ _. ⊥)
    deliver_attempt_once caller again_caller again_text parent again_parent =
        Outcome-mono (deliver_attempt env id worktree rid text attempt caller parent w) _ _
          (λ _ _. ⊥) (λ _ _. ⊥)
          (λ e w' d.
            deliver_attempt-again again_text again_caller again_parent w' e
              (Delivery-Readable e w' d) (Delivery-find e w' d))
          (λ _ _ absurd. absurd)
          (deliver_attempt-Delivery worktree rid text env id attempt caller parent w r)

is_attempt-request_id_of :
    (rid : Text) (attempt : ℕ) (k : InboxEventKind)
    → is_attempt rid attempt k ≡ true
    → request_id_of k ≡ some rid
unfolding request_id_of
is_attempt-request_id_of rid attempt (delivered r a) h = ground (arith, h, text_beq_iff r rid)
is_attempt-request_id_of rid attempt (delivery_failed r a _) h =
    ground (arith, h, text_beq_iff r rid)
is_attempt-request_id_of rid attempt _ h = cc h

is_attempt-decided :
    (hash : Text → Text) (rid : Text) (attempt : ℕ) (v : RequestView) (k : InboxEventKind)
    → is_attempt rid attempt k ≡ true
    → is_undecided (apply_kind hash v k).status ≡ false
unfolding apply_kind is_undecided
is_attempt-decided hash rid attempt v (delivered r a) h = refl
is_attempt-decided hash rid attempt v (delivery_failed r a _) h = refl
is_attempt-decided hash rid attempt v _ h = cc

pub decided-by_lifecycle :
    (v u : RequestView)
    → lifecycle v ≡ lifecycle u
    → is_undecided u.status ≡ false
    → is_undecided v.status ≡ false
unfolding lifecycle
decided-by_lifecycle v u e h = ap (λ x. is_undecided x.status) e ∙ h

module _ {V : Type 0} (env : Env V) (worktree : WorktreeKey) (rid : Text) (id : Text) (attempt : ℕ)
    (text : Text) (w : World V) where
  -- A decided request stays decided when it is delivered.
  pub Delivery-Shows :
      (e : InboxEvent) (w' : World V) (v : RequestView)
      → Delivery worktree rid text env id attempt w e w'
      → view_of env id rid w ≡ some v
      → is_undecided v.status ≡ false
      → Shows env id rid (λ v'. is_undecided v'.status ≡ false) w'
  Delivery-Shows e w' v (again _ _) was decided = (v, was, decided)
  Delivery-Shows e w' v (attempted _ _ _ a) was decided =
      let own = Attempted-is_attempt worktree rid text env id attempt w e w' a in
      let (v', shown, same) =
        view_of-append env id rid w w' e v (log_of-insert id w w' _ a.logs)
          (is_attempt-request_id_of rid attempt e.kind own) was in
      (
        v',
        shown,
        decided-by_lifecycle v' _ same (is_attempt-decided env.sha1_hex rid attempt v e.kind own),
      )
