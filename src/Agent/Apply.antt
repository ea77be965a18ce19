-- ===== src/Agent/Apply.antt =====
-- crates/sebenza-server/src/services/system_agent/apply.rs: what a finished triage does to the inbox.
-- The text of an error is the parameter `display`.
pub mod Quiet
use sebenza.Base.{
  ℕ, zero, suc, ◌+◌, ◌-◌, ◌*◌, ◌/◌, ◌%◌, ◌^◌, ◌≤◌, ◌<◌, max, Text, codes, ◌≡◌, ◌≢◌, refl, sym, ap,
  ◌∙◌, subst, ◌↔◌, ◌⊎◌, inl, inr, Bool, true, false, not, ◌&&◌, ◌||◌, Option, none, some, List, [],
  ◌∷◌, ◌++◌, map, append-nil, append_assoc, arith, Eq, ◌==◌, nat_eq, text_eq, text_beq,
  text_beq_iff, text_beq_refl, nat_beq_iff, ltb, leb, if◌then◌else◌, unwrap_or, is_some, or_else,
  is_some_and, keep_if, all, any, find, filter, filter_map, find_map, contains, length, take,
  lookup, insert, remove, is_empty, is_blank, trim, Bool-cases, Option-cases, All,
}
use sebenza.World.{World, Env, Result, ok, err, M, pure, raise, map_err, ◌>>=◌, ◌>>◌}
use sebenza.Service.{InboxServiceError}
use sebenza.Service.Priorities.{set_agent_priority}
use sebenza.Service.Decisions.{record_proposal, record_advice, record_triage_failed}
use sebenza.Agent.{
  JobKind, triage, job_kind_eq, JobStatus, succeeded, Recommendation, no_recommendation, advise,
  propose, TriageOutput, JobOutput, triage_output, JobRecord,
}

module _ {V : Type 0} (env : Env V) (display : InboxServiceError → Text) where
  -- `.map_err(|e| format!("…: {e}"))`
  abbrev pub failing : {A : Type 0} → Text → M V InboxServiceError A → M V Text A
  failing what m = map_err (λ e. what ++ (codes ": " ++ display e)) m

  -- The match on the recommendation.
  unfoldable pub apply_recommendation : Recommendation → Text → Text → Text → Text → M V Text Unit
  apply_recommendation no_recommendation id rid body rationale = pure tt
  apply_recommendation advise id rid body rationale =
      failing (codes "cannot record advice") (record_advice env id rid body) >>= λ _. pure tt
  apply_recommendation propose id rid body rationale =
      failing (codes "cannot record the proposal") (record_proposal env id rid body rationale)
      >>= λ _. pure tt

  unfoldable pub apply : Text → Text → TriageOutput → M V Text Unit
  apply id rid out =
      failing (codes "cannot set priority") (set_agent_priority env id out.priority) >>= λ _.
      apply_recommendation out.recommendation id rid (unwrap_or out.body []) out.rationale

  abbrev pub no_result : M V Text Unit
  no_result = raise (codes "triage produced no triage result")

  -- The match on the status and the output.
  unfoldable pub triage_outcome :
      Text → Text → JobStatus → Option JobOutput → Option Text → M V Text Unit
  triage_outcome id rid succeeded (some (triage_output out)) error = apply id rid out
  triage_outcome id rid succeeded _ error = no_result
  triage_outcome id rid _ output error = raise (unwrap_or error (codes "the triage job failed"))

  -- A failure is recorded, and one in recording it is only logged.
  unfoldable pub flag_failure : Text → Text → Result Text Unit × World V → World V
  flag_failure id rid (ok _, w) = w
  flag_failure id rid (err error, w) = (record_triage_failed env id rid error w).1

  -- Behind the check of the kind, by the job's request.
  unfoldable pub finish_triage : JobRecord → Option Text → World V → World V
  finish_triage job none w = w
  finish_triage job (some rid) w =
      flag_failure job.draft_id rid
        (triage_outcome job.draft_id rid job.status job.output job.error w)

  unfoldable pub job_finished : JobRecord → World V → World V
  job_finished job w = if not (job.kind == triage) then w else finish_triage job job.request_id w
