-- ===== src/Service/Deliver.antt =====
-- `deliver_attempt` of crates/common/src/services/inbox_service.rs: one paste for one attempt.
use sebenza.Base.{
  subst, take, ℕ, Text, ◌≡◌, refl, sym, ap, lookup, codes, length, ◌∙◌, true, none, some, Option,
  List, [], ◌∷◌, ◌++◌, find, insert, arith, text_beq_refl,
}
use sebenza.Events.{InboxEventKind, delivered, delivery_failed, InboxEvent, WorktreeKey}
use sebenza.Delivery.{prepare_resolution}
use sebenza.World.{World, Env, Result, ok, err}
use sebenza.World.Outcome.{Outcome, Outcome-bind, Outcome-map_err, Outcome-elim}
use sebenza.Service.{max_error_chars, InboxServiceError, store}
use sebenza.Service.Reads.{log_of, Readable, appended, Outcome-read_events}
use sebenza.Service.Effects.{insert-log_of, Outcome-write}
use sebenza.Service.Decisions.{deliver_attempt, delivery_event, send, is_attempt}

module _ {V : Type 0} (worktree : WorktreeKey) (rid text : Text) where
  -- What the panes were sent, once the text went out: one more paste, if there is a sink.
  unfoldable pub sends_after :
      Option (ℕ → WorktreeKey → Text → Result Text Unit) → World V → List (WorktreeKey × Text)
  sends_after none w = w.sends
  sends_after (some _) w = w.sends ++ (worktree, prepare_resolution rid text) ∷ []

  -- What the pane answers: the sink of the server, and an error where there is none.
  unfoldable pub answer_of :
      Option (ℕ → WorktreeKey → Text → Result Text Unit) → World V → Result Text Unit
  answer_of none w = err (codes "no pane delivery is configured")
  answer_of (some sink) w = sink (length w.sends) worktree (prepare_resolution rid text)

  module _ (env : Env V) where
    -- The answer of the pane, and a world that differs in what the panes were sent, and in that alone.
    record Pasted (r : Result Text Unit) (w w' : World V) : Type 0 where
      pub answer : r ≡ answer_of env.pane w
      pub drafts : w'.drafts ≡ w.drafts
      pub logs : w'.logs ≡ w.logs
      pub sends : w'.sends ≡ sends_after env.pane w

    Outcome-send {ℓ} :
        (w : World V) (Q : Result Text Unit → World V → Type ℓ)
        (R : InboxServiceError → World V → Type ℓ)
        → ((r : Result Text Unit) (w' : World V) → Pasted r w w' → Q r w')
        → Outcome (send env worktree rid text w) Q R
    unfolding send sends_after answer_of
    Outcome-send w Q R h = by_pane env.pane refl
      where
        by_pane :
            (p : Option (ℕ → WorktreeKey → Text → Result Text Unit))
            → env.pane ≡ p
            → Outcome {E = InboxServiceError} {A = Result Text Unit}
                (elim p [
                  | none ↦ (ok (err (codes "no pane delivery is configured")), w)
                  | some sink ↦
                      let pasted = prepare_resolution rid text in
                      (
                        ok (sink (length w.sends) worktree pasted),
                        record w { sends = w.sends ++ (worktree, pasted) ∷ [] },
                      )
                ])
                Q
                R
        by_pane none e = h _ _ (record {
          answer = ap (λ p. answer_of p w) (sym e);
          drafts = refl;
          logs = refl;
          sends = ap (λ p. sends_after p w) (sym e);
        })
        by_pane (some sink) e = h _ _ (record {
          answer = ap (λ p. answer_of p w) (sym e);
          drafts = refl;
          logs = refl;
          sends = ap (λ p. sends_after p w) (sym e);
        })

    module _ (id : Text) (attempt : ℕ) where
      -- What the log says of an attempt that the pane answered so.
      pub data Reports : Result Text Unit → InboxEventKind → Type 0 where
        went_out : (u : Unit) → Reports (ok u) (delivered rid attempt)
        failed_with :
            (error : Text)
            → Reports (err error) (delivery_failed rid attempt (take max_error_chars error))

      -- An attempt that was made: the text is pasted once, if there is a sink, and one event, which says
      -- what the pane answered, ends the log.
      pub record Attempted (w : World V) (e : InboxEvent) (w' : World V) : Type 0 where
        pub reports : Reports (answer_of env.pane w) e.kind
        pub drafts : w'.drafts ≡ w.drafts
        pub logs : w'.logs ≡ insert id (log_of id w ++ e ∷ []) w.logs
        pub sends : w'.sends ≡ sends_after env.pane w

      Reports-is_attempt :
          (r : Result Text Unit) (k : InboxEventKind)
          → Reports r k
          → is_attempt rid attempt k ≡ true
      Reports-is_attempt _ _ (went_out u) = ground (arith, text_beq_refl rid)
      Reports-is_attempt _ _ (failed_with error) = ground (arith, text_beq_refl rid)

      pub Attempted-is_attempt :
          (w : World V) (e : InboxEvent) (w' : World V)
          → Attempted w e w'
          → is_attempt rid attempt e.kind ≡ true
      Attempted-is_attempt w e w' a = Reports-is_attempt _ _ a.reports

      -- What is left of an attempt in the log answers it again; or the attempt is made.
      pub data Delivery (w : World V) : InboxEvent → World V → Type 0 where
        again :
            (e : InboxEvent)
            → find (λ x. is_attempt rid attempt x.kind) (log_of id w) ≡ some e
            → Delivery w e w
        attempted :
            (e : InboxEvent) (w' : World V)
            → find (λ x. is_attempt rid attempt x.kind) (log_of id w) ≡ none
            → Attempted w e w'
            → Delivery w e w'

      pub Delivery-new :
          (w : World V) (e : InboxEvent) (w' : World V)
          → find (λ x. is_attempt rid attempt x.kind) (log_of id w) ≡ none
          → Delivery w e w'
          → Attempted w e w'
      Delivery-new w e w' new (again _ found) = absurd (ground (arith, new, found))
      Delivery-new w e w' new (attempted _ _ _ a) = a

      delivery_event-Reports :
          (r : Result Text Unit) → Reports r (delivery_event env rid attempt r).1
      unfolding delivery_event
      delivery_event-Reports (ok u) = went_out u
      delivery_event-Reports (err e) = failed_with e

      -- For a readable item, `deliver_attempt` never fails: an attempt that the log already has is
      -- answered with its event and changes nothing; otherwise the text is pasted once into the
      -- worktree's pane, if there is a sink, and one event of this attempt ends the log: that it was delivered
      -- exactly when the pane took it, and otherwise that it failed, with the start of the pane's error.
      pub deliver_attempt-Delivery :
          (caller : Option Text) (parent : Text) (w : World V)
          → Readable id w
          → Outcome
              (deliver_attempt env id worktree rid text attempt caller parent w)
              (Delivery w)
              (λ _ _. ⊥)
      unfolding deliver_attempt appended
      deliver_attempt-Delivery caller parent w r = Outcome-bind _ _ w _ _ (
          Outcome-map_err store _ w _ _ (
            Outcome-read_events id w _ _ r (
              Outcome-elim w _ _ (find (λ x. is_attempt rid attempt x.kind) (log_of id w)) _ _
                (λ new. Outcome-bind _ _ w _ _ (
                  Outcome-send w _ _ λ sent w1 p.
                    Outcome-write env id w1 _ _ _ _ _ _ _
                      (record {
                        valid = r.valid;
                        draft = r.draft;
                        found = ap (lookup id) p.drafts ∙ r.found;
                      })
                      λ w' wrote. attempted _ w' new (record {
                        reports =
                            subst (λ r. Reports r (delivery_event env rid attempt sent).1) p.answer
                              (delivery_event-Reports sent);
                        drafts = wrote.drafts ∙ p.drafts;
                        logs = wrote.logs ∙ insert-log_of id _ w w1 p.logs;
                        sends = wrote.sends ∙ p.sends;
                      })))
                λ e found. again e found)))
