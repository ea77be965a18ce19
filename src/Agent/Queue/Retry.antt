-- ===== src/Agent/Queue/Retry.antt =====
-- The other entries to the queue of crates/sebenza-server/src/services/system_agent/mod.rs: a triage
-- for each new request, a retry, the recovery after a restart, and what is read of the jobs.
use sebenza.Base.{
  ℕ, ◌+◌, ◌%◌, ◌^◌, max, Text, codes, Bool, true, false, not, ◌&&◌, Option, none, some, List, [],
  ◌∷◌, ◌++◌, map, ◌==◌, nat_eq, text_eq, ltb, if◌then◌else◌, unwrap_or, is_some, is_some_and, find,
  filter, length, lookup,
}
use sebenza.World.{Result, ok, err}
use sebenza.Events.{InboxEvent, InboxEventKind, RequestView}
use sebenza.Events.Fold.{fold_requests}
use sebenza.Service.{status_name}
use sebenza.Service.Decisions.{is_open}
use sebenza.Agent.{triage, job_kind_eq, JobInput, triage_input, is_terminal, JobRecord}
use sebenza.Agent.Queue.{
  EnqueueError, disabled, invalid, unknown_request, not_retryable, AgentState, AgentEnv,
}
use sebenza.Agent.Queue.Run.{enqueue_new}

abbrev pub first_of : Result EnqueueError (Text × Bool) → Result EnqueueError Text
first_of (err e) = err e
first_of (ok (id, _)) = ok id

unfoldable pub enqueue :
    AgentEnv → (Text → Bool) → Text → JobInput → AgentState → Result EnqueueError Text × AgentState
enqueue env inbox draft_id input s =
    let (answer, s') = enqueue_new env inbox draft_id input s in (first_of answer, s')

-- The events that end an attempt of the request.
unfoldable pub ends_triage : Text → InboxEventKind → Bool
ends_triage rid (InboxEventKind.triage_failed r _) = r == rid
ends_triage rid (InboxEventKind.proposal r _ _ _ _) = r == rid
ends_triage rid (InboxEventKind.advice r _ _) = r == rid
ends_triage rid _ = false

abbrev pub is_triage_of : Text → Text → JobRecord → Bool
is_triage_of draft_id request_id job =
    job.draft_id == draft_id
    && job.kind == triage
    && is_some_and job.request_id (λ r. r == request_id)

abbrev pub job_records : AgentState → List JobRecord
job_records s = map (λ entry. entry.1.1) s.queue.jobs

unfoldable pub most_attempts : List JobRecord → ℕ
most_attempts [] = 0
most_attempts (job ∷ jobs) = max job.attempt (most_attempts jobs)

-- The part behind the reading of the log. An attempt is a 32-bit number.
unfoldable pub retry_open :
    AgentEnv
    → (Text → Bool)
    → List InboxEvent
    → Text
    → Text
    → AgentState
    → Result EnqueueError Text × AgentState
retry_open env inbox events draft_id request_id s =
    let mine = filter (is_triage_of draft_id request_id) (job_records s) in
    elim (find (λ j. not (is_terminal j.status)) mine) [
      | some job ↦ (ok job.job_id, s)
      | none ↦
          let logged = length (filter (λ e. ends_triage request_id e.kind) events) % 2 ^ 32 in
          enqueue env inbox draft_id
            (triage_input request_id ((max (most_attempts mine) logged + 1) % 2 ^ 32)) s
    ]

-- What `InboxService::events` answers with is `read`: the events, or an error, which is `none` for
-- one of the store and has its message otherwise.
unfoldable pub retry_triage :
    (Text → Text)
    → AgentEnv
    → (Text → Bool)
    → Result (Option Text) (List InboxEvent)
    → Text
    → Text
    → AgentState
    → Result EnqueueError Text × AgentState
retry_triage sha1_hex env inbox (err e) draft_id request_id s =
    if not env.enabled
    then (err disabled, s)
    else (err (invalid (unwrap_or e (codes "unknown draft " ++ draft_id))), s)
retry_triage sha1_hex env inbox (ok events) draft_id request_id s =
    if not env.enabled
    then (err disabled, s)
    else elim (find (λ r. r.request_id == request_id) (fold_requests sha1_hex events)) [
      | none ↦ (err (unknown_request request_id), s)
      | some request ↦
          if not (is_open request.status)
          then (err (not_retryable (status_name request.status)), s)
          else retry_open env inbox events draft_id request_id s
    ]

unfoldable pub is_untriaged : RequestView → Bool
is_untriaged r =
    is_open r.status && not (is_some r.proposal_id) && not r.flagged && not (is_some r.last_reason)

abbrev pub count_new : Result EnqueueError (Text × Bool) → ℕ
count_new (ok (_, true)) = 1
count_new _ = 0

-- The inner loop, over the requests of an item, with the count so far.
unfoldable pub recover_requests :
    AgentEnv → (Text → Bool) → Text → List RequestView → ℕ × AgentState → ℕ × AgentState
recover_requests env inbox id [] acc = acc
recover_requests env inbox id (request ∷ requests) (n, s) =
    let (answer, s') = enqueue_new env inbox id (triage_input request.request_id 1) s in
    recover_requests env inbox id requests (n + count_new answer, s')

-- The outer loop, over the items that are no raw files, each with what `list_requests` answers.
unfoldable pub recover_items :
    AgentEnv
    → (Text → Bool)
    → List (Text × Option (List RequestView))
    → ℕ × AgentState
    → ℕ × AgentState
recover_items env inbox [] acc = acc
recover_items env inbox ((id, none) ∷ items) acc = recover_items env inbox items acc
recover_items env inbox ((id, some requests) ∷ items) acc =
    recover_items env inbox items (recover_requests env inbox id (filter is_untriaged requests) acc)

unfoldable pub recover_on_startup :
    AgentEnv
    → (Text → Bool)
    → Option (List (Text × Option (List RequestView)))
    → AgentState
    → ℕ × AgentState
recover_on_startup env inbox none s = (0, s)
recover_on_startup env inbox (some items) s =
    if not env.enabled then (0, s) else recover_items env inbox items (0, s)

-- `TriageOnRequest::request_opened`
unfoldable pub request_opened : AgentEnv → (Text → Bool) → Text → Text → AgentState → AgentState
request_opened env inbox draft_id request_id s =
    (enqueue env inbox draft_id (triage_input request_id 1) s).1

unfoldable pub job : AgentState → Text → Option JobRecord
job s id = elim (lookup id s.queue.jobs) [ none ↦ none | some (_, record_of) ↦ some record_of ]

-- `sort_by_key`
unfoldable pub insert_by_number : ℕ × JobRecord → List (ℕ × JobRecord) → List (ℕ × JobRecord)
insert_by_number new [] = new ∷ []
insert_by_number new (e ∷ rest) =
    let more = insert_by_number new rest in if ltb new.0 e.0 then new ∷ e ∷ rest else e ∷ more

unfoldable pub sort_by_number : List (ℕ × JobRecord) → List (ℕ × JobRecord) → List (ℕ × JobRecord)
sort_by_number sorted [] = sorted
sort_by_number sorted (e ∷ entries) = sort_by_number (insert_by_number e sorted) entries

unfoldable pub jobs_for : AgentState → Text → List JobRecord
jobs_for s draft_id =
    map (λ e. e.1)
      (sort_by_number [] (filter (λ e. e.1.draft_id == draft_id) (map (λ e. e.1) s.queue.jobs)))

unfoldable pub queue_depth : AgentState → ℕ
queue_depth s = length s.queue.waiting
