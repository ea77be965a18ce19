-- ===== src/Agent/Queue.antt =====
-- The queue of crates/sebenza-server/src/services/system_agent/mod.rs. Its lock makes each function
-- here one action. A map of hash keys is an association list, a set a list without repetitions.
pub mod Run
pub mod Retry
pub mod Counts
pub mod Sound
pub mod Moves
pub mod Slots
pub mod Settled
use sebenza.Base.{
  ℕ, zero, suc, ◌+◌, ◌-◌, ◌*◌, ◌/◌, ◌%◌, ◌^◌, ◌≤◌, ◌<◌, max, Text, codes, ◌≡◌, ◌≢◌, refl, sym, ap,
  ◌∙◌, subst, ◌↔◌, ◌⊎◌, inl, inr, Bool, true, false, not, ◌&&◌, ◌||◌, Option, none, some, List, [],
  ◌∷◌, ◌++◌, map, append-nil, append_assoc, arith, Eq, ◌==◌, nat_eq, text_eq, text_beq,
  text_beq_iff, text_beq_refl, nat_beq_iff, ltb, leb, if◌then◌else◌, unwrap_or, is_some, or_else,
  is_some_and, keep_if, all, any, find, filter, filter_map, find_map, contains, length, take,
  lookup, insert, remove, is_empty, is_blank, trim, Bool-cases, Option-cases, All,
}
use sebenza.World.{Result, ok, err}
use sebenza.Agent.{
  JobKind, triage, job_kind_eq, is_interactive, JobInput, triage_input, convert_input, kind_of,
  JobStatus, queued, running, succeeded, failed, JobOutput, JobRecord,
}

pub data EnqueueError : Type 0 where
  disabled no_runtime : EnqueueError
  queue_full invalid unknown_request not_retryable : Text → EnqueueError

abbrev pub max_queued_per_item : ℕ
max_queued_per_item = 32

unfoldable pub finished_jobs_kept : ℕ
finished_jobs_kept = 512

-- An entry of the waiting jobs: their key is the lane and the number.
pub record Waiting : Type 0 where
  pub lane : ℕ
  pub number : ℕ
  pub job_id : Text

pub record DedupeKey : Type 0 where
  pub draft_id : Text
  pub request_id : Text
  pub kind : JobKind
  pub attempt : ℕ

pub record QueueState : Type 0 where
  pub seq : ℕ
  pub waiting : List Waiting
  pub busy : List Text
  pub running_jobs : ℕ
  pub jobs : List (Text × (ℕ × JobRecord))
  pub finished : List Text
  pub dedupe : List (DedupeKey × Text)

-- A call of `run` that was spawned: its job, the draft that was marked busy for it, and the record
-- that it read, once it did.
pub record Task : Type 0 where
  pub job_id : Text
  pub draft_id : Text
  pub read : Option JobRecord

-- The service: its queue, the calls of `run` that have not ended, what subscribers and the sink were
-- told, and how often the clock, the random ids and the finish counter were used.
pub record AgentState : Type 0 where
  pub queue : QueueState
  pub tasks : List Task
  pub updates : List JobRecord
  pub sunk : List JobRecord
  pub ids_drawn : ℕ
  pub clock_reads : ℕ
  pub finish_count : ℕ

-- The settings, whether there is a runtime, the random ids and the clock.
pub record AgentEnv : Type 0 where
  pub enabled : Bool
  pub has_runtime : Bool
  pub max_concurrent : ℕ
  pub ulid : ℕ → Text
  pub now : ℕ → Text

unfoldable pub same_key : DedupeKey → DedupeKey → Bool
same_key a b =
    a.draft_id == b.draft_id
    && a.request_id == b.request_id
    && a.kind == b.kind
    && a.attempt == b.attempt

unfoldable pub find_key : DedupeKey → List (DedupeKey × Text) → Option Text
find_key key [] = none
find_key key ((k, id) ∷ rest) = if same_key k key then some id else find_key key rest

abbrev pub dedupe_key : Text → JobInput → Option DedupeKey
dedupe_key draft_id (triage_input request_id attempt) =
    some record { draft_id = draft_id; request_id = request_id; kind = triage; attempt = attempt }
dedupe_key draft_id _ = none

abbrev pub request_of : JobInput → Option Text
request_of (triage_input request_id _) = some request_id
request_of _ = none

abbrev pub attempt_of : JobInput → ℕ
attempt_of (triage_input _ attempt) = attempt
attempt_of _ = 1

unfoldable pub check_input : JobInput → Option EnqueueError
check_input (triage_input request_id attempt) =
    if is_blank request_id || attempt == 0
    then some (invalid (codes "a triage needs a request id and an attempt of 1 or more"))
    else none
check_input (convert_input targets _) =
    if is_empty targets
    then some (invalid (codes "a convert job needs at least one target"))
    else none
check_input _ = none

-- Whether a job that is known has a draft that passes the test.
abbrev pub job_draft : List (Text × (ℕ × JobRecord)) → Text → Option Text
job_draft jobs id = elim (lookup id jobs) [ none ↦ none | some (_, job) ↦ some job.draft_id ]

-- The count of waiting jobs of a draft.
unfoldable pub waiting_for : List (Text × (ℕ × JobRecord)) → Text → List Waiting → ℕ
waiting_for jobs draft_id [] = 0
waiting_for jobs draft_id (e ∷ entries) =
    let rest = waiting_for jobs draft_id entries in
    if is_some_and (job_draft jobs e.job_id) (λ d. d == draft_id) then suc rest else rest

unfoldable pub key_ltb : Waiting → Waiting → Bool
key_ltb a b = ltb a.lane b.lane || (a.lane == b.lane && ltb a.number b.number)

-- `BTreeMap::insert` under a number that is new
unfoldable pub insert_waiting : Waiting → List Waiting → List Waiting
insert_waiting new [] = new ∷ []
insert_waiting new (e ∷ rest) =
    let more = insert_waiting new rest in if key_ltb new e then new ∷ e ∷ rest else e ∷ more

abbrev pub is_startable : QueueState → Waiting → Bool
is_startable st e = is_some_and (job_draft st.jobs e.job_id) (λ d. not (contains st.busy d))

abbrev pub onto_rest : Waiting → Option (Waiting × List Waiting) → Option (Waiting × List Waiting)
onto_rest e none = none
onto_rest e (some (found, rest)) = some (found, e ∷ rest)

-- The first entry that passes the test, and the others: keys differ, so that removing the key of
-- the entry found removes that entry.
unfoldable pub take_first : (Waiting → Bool) → List Waiting → Option (Waiting × List Waiting)
take_first p [] = none
take_first p (e ∷ entries) =
    let later = take_first p entries in if p e then some (e, entries) else onto_rest e later

-- `HashSet::insert` and `remove`
unfoldable pub mark : Text → List Text → List Text
mark d busy = if contains busy d then busy else busy ++ d ∷ []

unfoldable pub unmark : Text → List Text → List Text
unmark d busy = filter (λ b. not (b == d)) busy

-- The job that a round of the loop claims.
unfoldable pub claim : AgentEnv → AgentState → Text → ℕ → JobRecord → List Waiting → AgentState
claim env s job_id number job rest =
    let started = record job { status = running; started_at = some (env.now s.clock_reads) } in
    record s {
      queue = record s.queue {
        waiting = rest;
        busy = mark job.draft_id s.queue.busy;
        running_jobs = s.queue.running_jobs + 1;
        jobs = insert job_id (number, started) s.queue.jobs;
      };
      tasks = s.tasks ++ record { job_id = job_id; draft_id = job.draft_id; read = none } ∷ [];
      updates = s.updates ++ started ∷ [];
      clock_reads = suc s.clock_reads;
    }

abbrev pub slots : AgentEnv → ℕ
slots env = max env.max_concurrent 1

-- A round: the state and whether the loop goes on.
abbrev pub claim_known :
    AgentEnv → AgentState → Text → List Waiting → Option (ℕ × JobRecord) → AgentState
claim_known env s job_id rest none = record s { queue = record s.queue { waiting = rest } }
claim_known env s job_id rest (some (number, job)) = claim env s job_id number job rest

unfoldable pub next_round : AgentEnv → AgentState → Option AgentState
next_round env s =
    if ltb s.queue.running_jobs (slots env)
    then elim (take_first (is_startable s.queue) s.queue.waiting) [
      | none ↦ none
      | some (e, rest) ↦ some (claim_known env s e.job_id rest (lookup e.job_id s.queue.jobs))
    ]
    else none

-- The loop of `dispatch`: each round takes one of the waiting jobs.
unfoldable pub dispatch_from : AgentEnv → ℕ → AgentState → AgentState
dispatch_from env zero s = s
dispatch_from env (suc fuel) s = elim (next_round env s) [
  | none ↦ s
  | some s' ↦ dispatch_from env fuel s'
]

unfoldable pub dispatch : AgentEnv → AgentState → AgentState
dispatch env s = dispatch_from env (length s.queue.waiting) s
