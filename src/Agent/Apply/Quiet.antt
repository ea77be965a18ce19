-- ===== src/Agent/Apply/Quiet.antt =====
-- What triage leaves alone: the panes, the texts of the drafts, and every decision.
use sebenza.Base.{
  lookup-insert_same, ℕ, Text, ◌≡◌, refl, sym, ap, ◌∙◌, Bool, true, false, not, ◌&&◌, Option, none,
  some, List, [], ◌∷◌, ◌++◌, append-nil, append_assoc, arith, ◌==◌, nat_eq, text_eq, text_beq_iff,
  if◌then◌else◌, unwrap_or, all, lookup, insert, lookup-insert, all-append,
}
use sebenza.Draft.{InboxDraft, InboxDraftView, parsed, raw, Priority, priority_eq, source_eq}
use sebenza.Events.{InboxEvent, InboxEventKind, proposal, advice, triage_failed, priority_changed}
use sebenza.World.{World, Env, Result, ok, err}
use sebenza.World.Outcome.{
  Outcome, Outcome-bind, Outcome-if, Outcome-elim, Outcome-map_err, Outcome-refuse_if, Outcome-mono,
}
use sebenza.Store.{set_priority_by, set_priority, by_agent, priority_target, PriorityWrite}
use sebenza.Store.Writes.{Outcome-require_writable, at_version}
use sebenza.Service.{InboxServiceError}
use sebenza.Service.Reads.{appended, after_append, log_of, Outcome-append_event}
use sebenza.Service.Effects.{Wrote, log_of-insert, Outcome-view, Outcome-write}
use sebenza.Service.Decisions.{record_proposal, record_advice, record_triage_failed, is_open}
use sebenza.Service.Priorities.{set_agent_priority, audit_agent, agent_audit_of}
use sebenza.Agent.{
  JobRecord, JobStatus, succeeded, failed, queued, running, triage, job_kind_eq, JobOutput,
  triage_output, draft_help_output, convert_output, Recommendation, no_recommendation, advise,
  propose, TriageOutput,
}
use sebenza.Agent.Apply.{
  finish_triage, apply_recommendation, apply, triage_outcome, flag_failure, job_finished,
}

-- The text of a draft or of a file that is none.
abbrev pub text_of : {V : Type 0} → Option (InboxDraftView V) → Option Text
text_of none = none
text_of (some (parsed d)) = some d.body
text_of (some (raw _ text _)) = some text

-- The events that the system agent is the author of. None of them decides or delivers.
unfoldable pub is_of_triage : InboxEventKind → Bool
is_of_triage (proposal _ _ _ _ _) = true
is_of_triage (advice _ _ _) = true
is_of_triage (triage_failed _ _) = true
is_of_triage (priority_changed _ _ _) = true
is_of_triage _ = false

-- No pane was sent anything, all drafts have their text, the log of the item was only added to, with
-- events of triage, and the logs of all other items are as they were.
pub record Quiet {V : Type 0} (id : Text) (w w' : World V) : Type 0 where
  pub sends : w'.sends ≡ w.sends
  pub texts : (k : Text) → text_of (lookup k w'.drafts) ≡ text_of (lookup k w.drafts)
  pub elsewhere : (k : Text) → id == k ≡ false → lookup k w'.logs ≡ lookup k w.logs
  pub added : List InboxEvent
  pub logged : log_of id w' ≡ log_of id w ++ added
  pub of_triage : all (λ e. is_of_triage e.kind) added ≡ true

module _ {V : Type 0} (id : Text) where
  Quiet-refl : (w : World V) → Quiet id w w
  unfolding all
  Quiet-refl w = record {
    sends = refl;
    texts = λ k. refl;
    elsewhere = λ k h. refl;
    added = [];
    logged = sym (append-nil (log_of id w));
    of_triage = refl;
  }

  Quiet-trans : (w w1 w2 : World V) → Quiet id w w1 → Quiet id w1 w2 → Quiet id w w2
  Quiet-trans w w1 w2 p q = record {
    sends = q.sends ∙ p.sends;
    texts = λ k. q.texts k ∙ p.texts k;
    elsewhere = λ k h. q.elsewhere k h ∙ p.elsewhere k h;
    added = p.added ++ q.added;
    logged =
        q.logged ∙ ap (λ l. l ++ q.added) p.logged ∙ append_assoc (log_of id w) p.added q.added;
    of_triage = ground (
      arith,
      p.of_triage,
      q.of_triage,
      all-append (λ (e : InboxEvent). is_of_triage e.kind) p.added q.added,
    );
  }

  Wrote-Quiet :
      (e : InboxEvent) (w w' : World V)
      → is_of_triage e.kind ≡ true
      → Wrote id e w w'
      → Quiet id w w'
  unfolding all
  Wrote-Quiet e w w' kind wrote = record {
    sends = wrote.sends;
    texts = λ k. ap (λ l. text_of (lookup k l)) wrote.drafts;
    elsewhere = λ k other.
        ap (lookup k) wrote.logs
        ∙ ground (arith, other, lookup-insert id k (log_of id w ++ e ∷ []) w.logs);
    added = e ∷ [];
    logged = log_of-insert id w w' (log_of id w ++ e ∷ []) wrote.logs;
    of_triage = ground (arith, kind);
  }

  module _ (env : Env V) (rid : Text) (w : World V) where
    record_advice-Quiet :
        (body : Text)
        → Outcome (record_advice env id rid body w) (λ _ w'. Quiet id w w') (λ _ w'. Quiet id w w')
    unfolding record_advice appended is_of_triage
    record_advice-Quiet body =
        let same = Quiet-refl w in
        Outcome-bind _ _ w _ _ (
          Outcome-refuse_if w _ _ _ _ (λ _. same)
            λ _. Outcome-bind _ _ w _ _ (
              Outcome-refuse_if w _ _ _ _ (λ _. same)
                λ _.
                  Outcome-view env id w _ _ rid _ (λ _. same)
                    λ r v was.
                      Outcome-write env id w _ _ _ _ _ _ _ r
                        λ w' wrote. Wrote-Quiet _ w w' refl wrote))

    record_triage_failed-Quiet :
        (error : Text)
        → Outcome
            (record_triage_failed env id rid error w)
            (λ _ w'. Quiet id w w')
            (λ _ w'. Quiet id w w')
    unfolding record_triage_failed appended is_of_triage
    record_triage_failed-Quiet error =
        Outcome-view env id w _ _ rid _ (λ _. Quiet-refl w)
          λ r v was.
            Outcome-write env id w _ _ _ _ _ _ _ r λ w' wrote. Wrote-Quiet _ w w' refl wrote

    record_proposal-Quiet :
        (body rationale : Text)
        → Outcome
            (record_proposal env id rid body rationale w)
            (λ _ w'. Quiet id w w')
            (λ _ w'. Quiet id w w')
    unfolding record_proposal appended is_of_triage
    record_proposal-Quiet body rationale =
        let same = Quiet-refl w in
        Outcome-bind _ _ w _ _ (
          Outcome-refuse_if w _ _ _ _ (λ _. same)
            λ _. Outcome-bind _ _ w _ _ (
              Outcome-refuse_if w _ _ _ _ (λ _. same)
                λ _.
                  Outcome-view env id w _ _ rid _ (λ _. same)
                    λ r v was.
                      Outcome-if w _ _ (not (is_open v.status)) _ _ (λ _. same)
                        λ is_. Outcome-bind _ _ w _ _ (
                          Outcome-write env id _ _ _ _ _ _ _ _
                            (record { valid = r.valid; draft = r.draft; found = r.found })
                            λ w' wrote. Wrote-Quiet _ w w' refl (record {
                              drafts = wrote.drafts;
                              logs = wrote.logs;
                              sends = wrote.sends;
                            }))))

-- A draft that is written with its own text.
written-Quiet :
    {V : Type 0} (id : Text) (d d' : InboxDraft V) (clock : ℕ) (w : World V)
    → lookup id w.drafts ≡ some (parsed d)
    → d'.body ≡ d.body
    → Quiet id w (record w { clock_reads = clock; drafts = insert id (parsed d') w.drafts })
unfolding all
written-Quiet id d d' clock w found same = record {
  sends = refl;
  texts =
      λ k. ground (arith, found, same, lookup-insert id k (parsed d') w.drafts, text_beq_iff id k);
  elsewhere = λ k h. refl;
  added = [];
  logged = sym (append-nil (log_of id w));
  of_triage = refl;
}

module _ {V : Type 0} (env : Env V) (id : Text) (w : World V) where
  set_priority_by-Quiet :
      (write : PriorityWrite) (caller : Option Text)
      → Outcome
          (set_priority_by env id write caller w)
          (λ _ w'. Quiet id w w')
          (λ _ w'. Quiet id w w')
  unfolding set_priority_by appended after_append is_of_triage
  set_priority_by-Quiet write caller =
      let same = Quiet-refl id w in
      Outcome-bind _ _ w _ _ (
        Outcome-require_writable id w _ _ (λ _. same)
          λ d valid found known.
            Outcome-elim w _ _ (priority_target env (at_version d).frontmatter write) _ _
              (λ _. same)
              λ (to, source, author) asked.
                Outcome-if w _ _
                  (to == d.frontmatter.priority && source == d.frontmatter.priority_source) _ _
                  (λ _. same)
                  λ differs. Outcome-bind _ _ w _ _ (
                    Outcome-bind _ _ _ _ _ (
                      let written = written-Quiet id d _ _ w found refl in
                      Outcome-if _ _ _ (to == d.frontmatter.priority) _ _ (λ _. written)
                        λ new. Outcome-bind _ _ _ _ _ (
                          Outcome-append_event env id _ _ _ _ _ _
                            (record {
                              valid = valid;
                              draft = _;
                              found = lookup-insert_same id _ w.drafts;
                            })
                            (Quiet-trans id w _ _ written (
                              Wrote-Quiet id _ _ _ refl
                                (record { drafts = refl; logs = refl; sends = refl })))))))

  audit_agent-Quiet :
      (w1 : World V) (event : Option InboxEvent)
      → Quiet id w w1
      → Outcome (audit_agent env id event w1) (λ _ w'. Quiet id w w') (λ _ w'. Quiet id w w')
  unfolding audit_agent
  audit_agent-Quiet w1 event q =
      Outcome-elim w1 _ _ (agent_audit_of id event) _ _ (λ _. q)
        λ audit _. record {
          sends = q.sends;
          texts = q.texts;
          elsewhere = q.elsewhere;
          added = q.added;
          logged = q.logged;
          of_triage = q.of_triage;
        }

  set_agent_priority-Quiet :
      (priority : Priority)
      → Outcome
          (set_agent_priority env id priority w)
          (λ _ w'. Quiet id w w')
          (λ _ w'. Quiet id w w')
  unfolding set_agent_priority set_priority
  set_agent_priority-Quiet priority = Outcome-bind _ _ w _ _ (
      Outcome-map_err _ _ w _ _ (
        Outcome-mono (set_priority_by env id (by_agent priority) none w) _ _ _ _
          (λ event w1 q. Outcome-bind _ _ w1 _ _ (audit_agent-Quiet w1 event q)) (λ e w1 q. q)
          (set_priority_by-Quiet (by_agent priority) none)))

module _ {V : Type 0} (env : Env V) (display : InboxServiceError → Text) (id rid : Text) where
  apply_recommendation-Quiet :
      (recommendation : Recommendation) (body rationale : Text) (w : World V)
      → Outcome
          (apply_recommendation env display recommendation id rid body rationale w)
          (λ _ w'. Quiet id w w')
          (λ _ w'. Quiet id w w')
  unfolding apply_recommendation
  apply_recommendation-Quiet no_recommendation body rationale w = Quiet-refl id w
  apply_recommendation-Quiet advise body rationale w =
      Outcome-bind _ _ w _ _ (Outcome-map_err _ _ w _ _ (record_advice-Quiet id env rid w body))
  apply_recommendation-Quiet propose body rationale w =
      Outcome-bind _ _ w _ _
        (Outcome-map_err _ _ w _ _ (record_proposal-Quiet id env rid w body rationale))

  apply-Quiet :
      (out : TriageOutput) (w : World V)
      → Outcome (apply env display id rid out w) (λ _ w'. Quiet id w w') (λ _ w'. Quiet id w w')
  unfolding apply
  apply-Quiet out w = Outcome-bind _ _ w _ _ (
      Outcome-map_err _ _ w _ _ (
        Outcome-mono (set_agent_priority env id out.priority w) _ _ _ _
          (λ event w1 q.
            Outcome-mono
              (apply_recommendation env display out.recommendation id rid (unwrap_or out.body [])
                out.rationale w1)
              _ _ _ _ (λ _ w2. Quiet-trans id w w1 w2 q) (λ _ w2. Quiet-trans id w w1 w2 q)
              (apply_recommendation-Quiet out.recommendation (unwrap_or out.body []) out.rationale
                w1))
          (λ e w1 q. q) (set_agent_priority-Quiet env id w out.priority)))

  triage_outcome-Quiet :
      (status : JobStatus) (output : Option JobOutput) (error : Option Text) (w : World V)
      → Outcome
          (triage_outcome env display id rid status output error w)
          (λ _ w'. Quiet id w w')
          (λ _ w'. Quiet id w w')
  unfolding triage_outcome
  triage_outcome-Quiet succeeded (some (triage_output out)) error w = apply-Quiet out w
  triage_outcome-Quiet succeeded (some (draft_help_output out)) error w = Quiet-refl id w
  triage_outcome-Quiet succeeded (some (convert_output out)) error w = Quiet-refl id w
  triage_outcome-Quiet succeeded none error w = Quiet-refl id w
  triage_outcome-Quiet failed output error w = Quiet-refl id w
  triage_outcome-Quiet queued output error w = Quiet-refl id w
  triage_outcome-Quiet running output error w = Quiet-refl id w

  flag_failure-Quiet :
      (w : World V) (p : Result Text Unit × World V)
      → Outcome p (λ _ w'. Quiet id w w') (λ _ w'. Quiet id w w')
      → Quiet id w (flag_failure env display id rid p)
  unfolding flag_failure
  flag_failure-Quiet w (ok done, w1) q = q
  flag_failure-Quiet w (err error, w1) q =
      ended (record_triage_failed env id rid error w1)
        (record_triage_failed-Quiet id env rid w1 error)
    where
      ended :
          (p : Result InboxServiceError InboxEvent × World V)
          → Outcome p (λ _ w'. Quiet id w1 w') (λ _ w'. Quiet id w1 w')
          → Quiet id w p.1
      ended (ok e, w2) r = Quiet-trans id w w1 w2 q r
      ended (err e, w2) r = Quiet-trans id w w1 w2 q r

if-Quiet :
    {V : Type 0} (id : Text) (w x y : World V) (b : Bool)
    → Quiet id w x
    → Quiet id w y
    → Quiet id w (if b then x else y)
if-Quiet id w x y true p q = p
if-Quiet id w x y false p q = q

finish_triage-Quiet :
    {V : Type 0} (env : Env V) (display : InboxServiceError → Text) (job : JobRecord)
    (request_id : Option Text) (w : World V)
    → Quiet job.draft_id w (finish_triage env display job request_id w)
unfolding finish_triage
finish_triage-Quiet env display job none w = Quiet-refl job.draft_id w
finish_triage-Quiet env display job (some rid) w =
    flag_failure-Quiet env display job.draft_id rid w
      (triage_outcome env display job.draft_id rid job.status job.output job.error w)
      (triage_outcome-Quiet env display job.draft_id rid job.status job.output job.error w)

-- Whatever a finished job says: what the server does with it sends nothing to any pane, leaves the text
-- of every draft and the logs of all other items as they are, and adds nothing to the log of its item
-- but proposals, advice, failed triages and changes of priority: it never confirms and never delivers.
pub job_finished-Quiet :
    {V : Type 0} (env : Env V) (display : InboxServiceError → Text) (job : JobRecord) (w : World V)
    → Quiet job.draft_id w (job_finished env display job w)
unfolding job_finished
job_finished-Quiet env display job w =
    if-Quiet job.draft_id w w (finish_triage env display job job.request_id w)
      (not (job.kind == triage)) (Quiet-refl job.draft_id w)
      (finish_triage-Quiet env display job job.request_id w)
