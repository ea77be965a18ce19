-- ===== src/Agent/Queue/Slots.antt =====
-- The queue runs no more jobs than it has slots, and for one item one at a time.
use sebenza.Base.{
  ℕ, ◌≤◌, Text, ◌≡◌, refl, ap, ◌∙◌, subst, ◌↔◌, inl, inr, Bool, true, false, not, Option, none,
  some, List, [], ◌∷◌, ◌++◌, arith, nat_eq, text_eq, text_beq_iff, leb, if◌then◌else◌, contains,
  length, lookup, Option-cases, All,
}
use sebenza.Agent.Queue.Moves.{
  push_job-IsSound, begin_run-IsSound, count-task_ids, count-task_drafts, All-cut, length_split,
  forget_from-IsForgotten,
}
use sebenza.World.{Result, ok, err}
use sebenza.Agent.{JobRecord, JobInput, JobOutput}
use sebenza.Agent.Queue.{
  AgentState, AgentEnv, Task, job_draft, slots, dispatch, finished_jobs_kept, max_queued_per_item,
  waiting_for, check_input, dedupe_key,
}
use sebenza.Agent.Queue.Run.{
  known_job, push_job, enqueue_new, begin_run, end_run, close_job, record_finish, tell,
  finished_record, Failure,
}
use sebenza.Agent.Queue.Counts.{count, task_ids, task_drafts, contains-unmark, job_draft-insert}
use sebenza.Agent.Queue.Sound.{
  count-one_more, places, IsKnown, IsSound, IsKnown-of_same, dispatch_from-IsSound,
}

-- What happens to the service: a job is queued, the call of `run` for a claimed job reads its
-- record, and a call that read its record ends with a result.
pub data AgentStep (env : AgentEnv) : AgentState → AgentState → Type 0 where
  enqueued :
      (inbox : Text → Bool) (draft_id : Text) (input : JobInput) (s : AgentState)
      → AgentStep env s (enqueue_new env inbox draft_id input s).1
  begun :
      (before : List Task) (task : Task) (after : List Task) (s : AgentState)
      → s.tasks ≡ before ++ task ∷ after
      → task.read ≡ none
      → AgentStep env s (begin_run before task after s)
  ended :
      (result : Result Failure (JobOutput × Bool)) (before : List Task) (task : Task)
      (job : JobRecord) (after : List Task) (s : AgentState)
      → s.tasks ≡ before ++ task ∷ after
      → task.read ≡ some job
      → AgentStep env s (end_run env result before task job after s)

draft_id-finished_record :
    (result : Result Failure (JobOutput × Bool)) (at : Text) (job : JobRecord)
    → (finished_record result at job).draft_id ≡ job.draft_id
unfolding finished_record
draft_id-finished_record (ok (output, reseeded)) at job = refl
draft_id-finished_record (err failure) at job = refl

job_draft-record_finish :
    (result : Result Failure (JobOutput × Bool)) (at id other : Text)
    (jobs : List (Text × (ℕ × JobRecord)))
    → job_draft (record_finish result at id jobs) other ≡ job_draft jobs other
unfolding record_finish
job_draft-record_finish result at id other jobs = elim (Option-cases (lookup id jobs)) [
  | inl unknown ↦ rw (record_finish, unknown) refl
  | inr ((number, job), listed) ↦
      rw (record_finish, listed)
        (ground (
          arith,
          listed,
          job_draft-insert jobs id other number (finished_record result at job),
          draft_id-finished_record result at job,
          text_beq_iff id other,
        ))
]

-- The task ends and its slot is free.
close_job-IsSound :
    (env : AgentEnv) (result : Result Failure (JobOutput × Bool)) (before : List Task) (task : Task)
    (job : JobRecord) (after : List Task) (s : AgentState)
    → s.tasks ≡ before ++ task ∷ after
    → task.read ≡ some job
    → IsSound env s
    → IsSound env (close_job env result task job (record s { tasks = before ++ after }))
unfolding close_job
close_job-IsSound env result before task job after s split read sound =
    let (mine, others) =
      All-cut (IsKnown s.queue.jobs) before task after
        (subst (All (IsKnown s.queue.jobs)) split sound.known) in
    let draft = mine.read_draft job read in
    let jobs = record_finish result (env.now s.clock_reads) task.job_id s.queue.jobs in
    let forgot =
      forget_from-IsForgotten finished_jobs_kept (s.queue.finished ++ task.job_id ∷ []) jobs in
    let ids =
      λ (id : Text). ap (λ l. count id (task_ids l)) split ∙ count-task_ids id before task after in
    let ended_ids = λ (id : Text). count-one_more id task.job_id s.queue.finished in
    record {
      used = ground (arith, sound.used, ap length split, length_split before task after);
      within = omega (arith, sound.within);
      items = λ d. ground (
        arith,
        sound.items d,
        ap (λ l. count d (task_drafts l)) split ∙ count-task_drafts d before task after,
        contains-unmark job.draft_id d s.queue.busy,
        draft,
        text_beq_iff job.draft_id d,
        text_beq_iff task.draft_id d,
      );
      once = λ id. omega (arith, forgot.fewer id, ended_ids id, ids id, sound.once id);
      undrawn = λ k le. omega (
        arith,
        forgot.fewer (env.ulid k),
        ended_ids (env.ulid k),
        ids (env.ulid k),
        sound.undrawn k le,
      );
      known =
          IsKnown-of_same s.queue.jobs _ (before ++ after)
            (λ id some_task.
              forgot.others id (omega (arith, ended_ids id, ids id, sound.once id, some_task))
              ∙ job_draft-record_finish result (env.now s.clock_reads) task.job_id id s.queue.jobs)
            others;
    }

tell-IsSound :
    (env : AgentEnv) (told : Option (ℕ × JobRecord)) (s : AgentState)
    → IsSound env s
    → IsSound env (tell told s)
unfolding tell
tell-IsSound env none s sound = record {
  used = sound.used;
  within = sound.within;
  items = sound.items;
  once = sound.once;
  undrawn = sound.undrawn;
  known = sound.known;
}
tell-IsSound env (some (number, job)) s sound = record {
  used = sound.used;
  within = sound.within;
  items = sound.items;
  once = sound.once;
  undrawn = sound.undrawn;
  known = sound.known;
}

if-IsSound :
    (env : AgentEnv) (b : Bool) (x y : AgentState)
    → IsSound env x
    → IsSound env y
    → IsSound env (if b then x else y)
if-IsSound env true x y h k = h
if-IsSound env false x y h k = k

if_answer-IsSound :
    {R : Type 0} (env : AgentEnv) (b : Bool) (x y : R × AgentState)
    → IsSound env x.1
    → IsSound env y.1
    → IsSound env (if b then x else y).1
if_answer-IsSound env true x y h k = h
if_answer-IsSound env false x y h k = k

end_run-IsSound :
    (env : AgentEnv) (result : Result Failure (JobOutput × Bool)) (before : List Task) (task : Task)
    (job : JobRecord) (after : List Task) (s : AgentState)
    → s.tasks ≡ before ++ task ∷ after
    → task.read ≡ some job
    → IsSound env s
    → IsSound env (end_run env result before task job after s)
unfolding end_run dispatch
end_run-IsSound env result before task job after s split read sound =
    let closed = close_job env result task job (record s { tasks = before ++ after }) in
    let closed_sound = close_job-IsSound env result before task job after s split read sound in
    tell-IsSound env _ _ (
      if-IsSound env env.has_runtime (dispatch env closed) closed
        (dispatch_from-IsSound env (length closed.queue.waiting) closed closed_sound) closed_sound)

enqueue_new-IsSound :
    (env : AgentEnv) (inbox : Text → Bool) (draft_id : Text) (input : JobInput) (s : AgentState)
    → ((j k : ℕ) → env.ulid j ≡ env.ulid k → j ≡ k)
    → IsSound env s
    → IsSound env (enqueue_new env inbox draft_id input s).1
unfolding enqueue_new dispatch
enqueue_new-IsSound env inbox draft_id input s distinct sound =
    if_answer-IsSound env (not env.enabled) _ _ sound (
      if_answer-IsSound env (not env.has_runtime) _ _ sound
        (elim (Option-cases (check_input input)) [
          | inr (e, bad) ↦ rw bad sound
          | inl fine ↦ rw fine (
              if_answer-IsSound env (not (inbox draft_id)) _ _ sound
                (elim (Option-cases (known_job s (dedupe_key draft_id input))) [
                  | inr (existing, found) ↦ rw found sound
                  | inl unknown ↦ rw unknown (
                      if_answer-IsSound env
                        (leb max_queued_per_item
                          (waiting_for s.queue.jobs draft_id s.queue.waiting))
                        _ _ sound
                        (dispatch_from-IsSound env
                          (length (push_job env s draft_id input).queue.waiting)
                          (push_job env s draft_id input)
                          (push_job-IsSound env draft_id input s distinct sound)))
                ]))
        ]))

step-IsSound :
    (env : AgentEnv)
    → ((j k : ℕ) → env.ulid j ≡ env.ulid k → j ≡ k)
    → {s s' : AgentState} → IsSound env s
    → AgentStep env s s'
    → IsSound env s'
step-IsSound env distinct sound (enqueued inbox draft_id input s) =
    enqueue_new-IsSound env inbox draft_id input s distinct sound
step-IsSound env distinct sound (begun before task after s split unread) =
    begin_run-IsSound env before task after s split sound
step-IsSound env distinct sound (ended result before task job after s split read) =
    end_run-IsSound env result before task job after s split read sound

abbrev pub new_service : AgentState
new_service = record {
  queue = record {
    seq = 0;
    waiting = [];
    busy = [];
    running_jobs = 0;
    jobs = [];
    finished = [];
    dedupe = [];
  };
  tasks = [];
  updates = [];
  sunk = [];
  ids_drawn = 0;
  clock_reads = 0;
  finish_count = 0;
}

-- The states that the service gets to.
pub data Reached (env : AgentEnv) : AgentState → Type 0 where
  start : Reached env new_service
  next : {s s' : AgentState} → Reached env s → AgentStep env s s' → Reached env s'

Reached-IsSound :
    (env : AgentEnv)
    → ((j k : ℕ) → env.ulid j ≡ env.ulid k → j ≡ k)
    → {s : AgentState} → Reached env s
    → IsSound env s
unfolding count contains
Reached-IsSound env distinct start = record {
  used = refl;
  within = omega arith;
  items = λ d. refl;
  once = λ id. omega arith;
  undrawn = λ k le. omega arith;
  known = tt;
}
Reached-IsSound env distinct (next reached step) =
    step-IsSound env distinct (Reached-IsSound env distinct reached) step

-- In whatever order jobs are queued, start and end, and whatever their results: no more of them run
-- than there are slots (the setting, at least 1), for one item at most one, an item is marked busy
-- exactly while a job of it runs, and a job stands at most once among those that wait, run, or ended
-- and are remembered. It is so when no random id is drawn twice.
pub Reached-slots :
    (env : AgentEnv) (s : AgentState)
    → ((j k : ℕ) → env.ulid j ≡ env.ulid k → j ≡ k)
    → Reached env s
    → (length s.tasks ≤ slots env)
      × ((d : Text) → count d (task_drafts s.tasks) ≤ 1)
      × ((d : Text) → (contains s.queue.busy d ≡ true) ↔ (count d (task_drafts s.tasks) ≡ 1))
      × ((id : Text) → places s id ≤ 1)
Reached-slots env s distinct reached =
    let sound = Reached-IsSound env distinct reached in
    (
      omega (arith, sound.used, sound.within),
      λ d. ground (arith, sound.items d),
      λ d. ground (arith, sound.items d),
      sound.once,
    )
