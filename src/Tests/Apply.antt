-- ===== src/Tests/Apply.antt =====
-- A triage job of the test item that proposes an answer.
use sebenza.Base.{codes, false, none, some, [], nat_eq, text_eq}
use sebenza.Draft.{p1}
use sebenza.Agent.{JobRecord, triage, triage_input, succeeded, triage_output, propose}
use sebenza.Agent.Apply.{job_finished}
use sebenza.Agent.Apply.Quiet.{Quiet, job_finished-Quiet}
use sebenza.Tests.Service.{item, rid, test_env, opened_world}

abbrev finished_job : JobRecord
finished_job = record {
  job_id = codes "j";
  draft_id = item;
  kind = triage;
  request_id = some rid;
  attempt = 1;
  status = succeeded;
  output = some (
      triage_output (record {
        priority = p1;
        rationale = codes "because";
        recommendation = propose;
        body = some (codes "do it");
      }));
  error = none;
  reseeded = false;
  enqueued_at = [];
  started_at = none;
  finished_at = none;
  input = triage_input rid 1;
}

job_finished-Quiet_example :
    Quiet item opened_world (job_finished test_env (λ _. []) finished_job opened_world)
job_finished-Quiet_example = job_finished-Quiet test_env (λ _. []) finished_job opened_world
