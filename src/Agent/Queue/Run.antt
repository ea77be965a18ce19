-- ===== src/Agent/Queue/Run.antt =====
-- The functions of crates/sebenza-server/src/services/system_agent/mod.rs that queue, run and finish a
-- job.
use sebenza.Base.{
  ℕ, suc, ◌+◌, ◌-◌, ◌%◌, ◌^◌, Text, codes, Bool, true, false, not, Option, none, some, List, [],
  ◌∷◌, ◌++◌, nat_eq, text_eq, ltb, leb, if◌then◌else◌, length, lookup, insert, remove,
}
use sebenza.World.{Result, ok, err}
use sebenza.Agent.{
  JobKind, job_kind_eq, is_interactive, JobInput, kind_of, queued, succeeded, failed, JobOutput,
  JobRecord,
}
use sebenza.Agent.Queue.{
  EnqueueError, disabled, no_runtime, queue_full, invalid, max_queued_per_item, finished_jobs_kept,
  DedupeKey, Task, AgentState, AgentEnv, find_key, dedupe_key, request_of, attempt_of, check_input,
  waiting_for, insert_waiting, unmark, dispatch,
}

abbrev pub new_job : AgentEnv → AgentState → Text → JobInput → JobRecord
new_job env s draft_id input = record {
  job_id = env.ulid s.ids_drawn;
  draft_id = draft_id;
  kind = kind_of input;
  request_id = request_of input;
  attempt = attempt_of input;
  status = queued;
  output = none;
  error = none;
  reseeded = false;
  enqueued_at = env.now s.clock_reads;
  started_at = none;
  finished_at = none;
  input = input;
}

abbrev pub lane_of : JobKind → ℕ
lane_of kind = if is_interactive kind then 0 else 1

abbrev pub remember : Option DedupeKey → Text → List (DedupeKey × Text) → List (DedupeKey × Text)
remember none id dedupe = dedupe
remember (some key) id dedupe = (key, id) ∷ dedupe

-- The new job, waiting. The counter has 64 bits.
unfoldable pub push_job : AgentEnv → AgentState → Text → JobInput → AgentState
push_job env s draft_id input =
    let job = new_job env s draft_id input in
    let number = (s.queue.seq + 1) % 2 ^ 64 in
    record s {
      queue = record s.queue {
        seq = number;
        waiting =
            insert_waiting
              (record { lane = lane_of (kind_of input); number = number; job_id = job.job_id })
              s.queue.waiting;
        jobs = insert job.job_id (number, job) s.queue.jobs;
        dedupe = remember (dedupe_key draft_id input) job.job_id s.queue.dedupe;
      };
      updates = s.updates ++ job ∷ [];
      ids_drawn = suc s.ids_drawn;
      clock_reads = suc s.clock_reads;
    }

abbrev pub known_job : AgentState → Option DedupeKey → Option Text
known_job s none = none
known_job s (some key) = find_key key s.queue.dedupe

-- `inbox` says of which drafts the inbox has a readable item.
unfoldable pub enqueue_new :
    AgentEnv
    → (Text → Bool)
    → Text
    → JobInput
    → AgentState
    → Result EnqueueError (Text × Bool) × AgentState
enqueue_new env inbox draft_id input s =
    if not env.enabled
    then (err disabled, s)
    else if not env.has_runtime
    then (err no_runtime, s)
    else elim (check_input input) [
      | some e ↦ (err e, s)
      | none ↦
          if not (inbox draft_id)
          then (err (invalid (codes "unknown draft " ++ draft_id)), s)
          else elim (known_job s (dedupe_key draft_id input)) [
            | some existing ↦ (ok (existing, false), s)
            | none ↦
                if leb max_queued_per_item (waiting_for s.queue.jobs draft_id s.queue.waiting)
                then (err (queue_full draft_id), s)
                else (ok (env.ulid s.ids_drawn, true), dispatch env (push_job env s draft_id input))
          ]
    ]

-- A failed job: why, and whether its session had been seeded again.
pub record Failure : Type 0 where
  pub error : Text
  pub reseeded : Bool

unfoldable pub finished_record : Result Failure (JobOutput × Bool) → Text → JobRecord → JobRecord
finished_record (ok (output, reseeded)) at job = record job {
  status = succeeded;
  output = some output;
  reseeded = reseeded;
  finished_at = some at;
}
finished_record (err failure) at job = record job {
  status = failed;
  error = some failure.error;
  reseeded = failure.reseeded;
  finished_at = some at;
}

-- The loop that forgets the oldest finished jobs. Each round takes one.
unfoldable pub forget_from :
    ℕ → List Text → List (Text × (ℕ × JobRecord)) → List Text × List (Text × (ℕ × JobRecord))
forget_from limit [] jobs = ([], jobs)
forget_from limit (old ∷ later) jobs =
    let rest = forget_from limit later (remove old jobs) in
    if ltb limit (length (old ∷ later)) then rest else (old ∷ later, jobs)

-- The start of `run`: the record of the job is read; without one the call ends.
unfoldable pub begin_run : List Task → Task → List Task → AgentState → AgentState
begin_run before task after s = elim (lookup task.job_id s.queue.jobs) [
  | none ↦ record s { tasks = before ++ after }
  | some (_, job) ↦ record s { tasks = before ++ (record task { read = some job } ∷ after) }
]

-- What the sink and the subscribers are told of a finished job.
unfoldable pub tell : Option (ℕ × JobRecord) → AgentState → AgentState
tell none s = record s { finish_count = suc s.finish_count }
tell (some (_, job)) s = record s {
  sunk = s.sunk ++ job ∷ [];
  updates = s.updates ++ job ∷ [];
  finish_count = suc s.finish_count;
}

-- The jobs with the finished one recorded.
unfoldable pub record_finish :
    Result Failure (JobOutput × Bool)
    → Text
    → Text
    → List (Text × (ℕ × JobRecord))
    → List (Text × (ℕ × JobRecord))
record_finish result at id jobs = elim (lookup id jobs) [
  | none ↦ jobs
  | some (number, job) ↦ insert id (number, finished_record result at job) jobs
]

-- The queue behind the end of a job, before the next are started.
unfoldable pub close_job :
    AgentEnv → Result Failure (JobOutput × Bool) → Task → JobRecord → AgentState → AgentState
close_job env result task job s =
    let jobs = record_finish result (env.now s.clock_reads) task.job_id s.queue.jobs in
    let (kept, known) =
      forget_from finished_jobs_kept (s.queue.finished ++ task.job_id ∷ []) jobs in
    record s {
      queue = record s.queue {
        busy = unmark job.draft_id s.queue.busy;
        running_jobs = s.queue.running_jobs - 1;
        jobs = known;
        finished = kept;
      };
      clock_reads = suc s.clock_reads;
    }

-- The end of `run`, with the job's result.
unfoldable pub end_run :
    AgentEnv
    → Result Failure (JobOutput × Bool)
    → List Task
    → Task
    → JobRecord
    → List Task
    → AgentState
    → AgentState
end_run env result before task job after s =
    let closed = close_job env result task job (record s { tasks = before ++ after }) in
    let told =
      lookup task.job_id (record_finish result (env.now s.clock_reads) task.job_id s.queue.jobs) in
    tell told (if env.has_runtime then dispatch env closed else closed)
