-- ===== src/Agent/Queue/Sound.antt =====
-- The invariant of the queue, and that the rounds of `dispatch` keep it.
use sebenza.Base.{
  ℕ, zero, suc, ◌+◌, ◌≤◌, ◌<◌, Text, ◌≡◌, refl, ap, ◌∙◌, subst, inl, inr, false, none, some, List,
  [], ◌∷◌, ◌++◌, arith, ◌==◌, nat_eq, text_eq, text_beq_iff, text_beq_refl, ltb, contains, length,
  lookup, insert, Bool-cases, Option-cases, All, length-append,
}
use mathlib.Core.Option.{some-injective}
use sebenza.Agent.{JobRecord, running}
use sebenza.Agent.Queue.{
  AgentState, AgentEnv, Waiting, Task, job_draft, is_startable, take_first, slots, claim,
  next_round, dispatch_from,
}
use sebenza.Agent.Queue.Counts.{
  count, count-append, waiting_ids, task_ids, task_drafts, one_if, IsTaken, take_first-some,
  contains-mark, job_draft-insert,
}

-- How often an id stands among the waiting, the running and the remembered finished jobs.
abbrev pub places : AgentState → Text → ℕ
places s id =
    count id (waiting_ids s.queue.waiting) + count id (task_ids s.tasks) + count id s.queue.finished

-- The registry has the task's job under the draft that is busy for it, and so had it when the task
-- read it.
pub record IsKnown (jobs : List (Text × (ℕ × JobRecord))) (task : Task) : Type 0 where
  pub listed : job_draft jobs task.job_id ≡ some task.draft_id
  pub read_draft : (job : JobRecord) → task.read ≡ some job → job.draft_id ≡ task.draft_id

pub record IsSound (env : AgentEnv) (s : AgentState) : Type 0 where
  pub used : s.queue.running_jobs ≡ length s.tasks
  pub within : s.queue.running_jobs ≤ slots env
  pub items : (d : Text) → count d (task_drafts s.tasks) ≡ one_if (contains s.queue.busy d)
  pub once : (id : Text) → places s id ≤ 1
  pub undrawn : (k : ℕ) → s.ids_drawn ≤ k → places s (env.ulid k) ≡ 0
  pub known : All (IsKnown s.queue.jobs) s.tasks

-- Tasks stay known while the registry keeps the drafts of their jobs.
pub IsKnown-of_same :
    (jobs jobs' : List (Text × (ℕ × JobRecord))) (tasks : List Task)
    → ((id : Text) → 0 < count id (task_ids tasks) → job_draft jobs' id ≡ job_draft jobs id)
    → All (IsKnown jobs) tasks
    → All (IsKnown jobs') tasks
unfolding count
IsKnown-of_same jobs jobs' [] same known = tt
IsKnown-of_same jobs jobs' (t ∷ tasks) same (first, known) = (
  record {
    listed = same t.job_id (ground (arith, text_beq_refl t.job_id)) ∙ first.listed;
    read_draft = first.read_draft;
  },
  IsKnown-of_same jobs jobs' tasks (λ id some_task. same id (ground (arith, some_task))) known,
)

pub All-append :
    {A : Type 0} (P : A → Type 0) (xs ys : List A) → All P xs → All P ys → All P (xs ++ ys)
All-append P [] ys h k = k
All-append P (x ∷ xs) ys (h, hs) k = (h, All-append P xs ys hs k)

pub task_ids-append : (xs ys : List Task) → task_ids (xs ++ ys) ≡ task_ids xs ++ task_ids ys
task_ids-append [] ys = refl
task_ids-append (x ∷ xs) ys = ap (λ l. x.job_id ∷ l) (task_ids-append xs ys)

pub task_drafts-append :
    (xs ys : List Task) → task_drafts (xs ++ ys) ≡ task_drafts xs ++ task_drafts ys
task_drafts-append [] ys = refl
task_drafts-append (x ∷ xs) ys = ap (λ l. x.draft_id ∷ l) (task_drafts-append xs ys)

pub count-one_more :
    (id x : Text) (xs : List Text) → count id (xs ++ x ∷ []) ≡ count id xs + one_if (x == id)
unfolding count
count-one_more id x xs = ground (arith, count-append id xs (x ∷ []))

-- A job that waits, whose item is idle, is claimed while a slot is free.
claim-IsSound :
    (env : AgentEnv) (s : AgentState) (e : Waiting) (rest : List Waiting) (number : ℕ)
    (job : JobRecord)
    → IsSound env s
    → s.queue.running_jobs < slots env
    → IsTaken (is_startable s.queue) s.queue.waiting e rest
    → lookup e.job_id s.queue.jobs ≡ some (number, job)
    → IsSound env (claim env s e.job_id number job rest)
unfolding claim count
claim-IsSound env s e rest number job sound free taken listed =
    let idle : contains s.queue.busy job.draft_id ≡ false = ground (arith, taken.passes, listed) in
    let task : Task = record { job_id = e.job_id; draft_id = job.draft_id; read = none } in
    let same : ((id : Text) → places (claim env s e.job_id number job rest) id ≡ places s id) =
      λ id. ground (
        arith,
        taken.counts id,
        ap (count id) (task_ids-append s.tasks (task ∷ []))
            ∙ count-one_more id e.job_id (task_ids s.tasks),
      ) in
    record {
      used = ground (arith, sound.used, length-append s.tasks (task ∷ []));
      within = omega (arith, free);
      items = λ d. ground (
        arith,
        sound.items d,
        idle,
        contains-mark job.draft_id d s.queue.busy,
        text_beq_iff job.draft_id d,
        ap (count d) (task_drafts-append s.tasks (task ∷ []))
            ∙ count-one_more d job.draft_id (task_drafts s.tasks),
      );
      once = λ id. omega (arith, same id, sound.once id);
      undrawn = λ k le. same (env.ulid k) ∙ sound.undrawn k le;
      known =
          let started = record job {
            status = running;
            started_at = some (env.now s.clock_reads);
          } in
          let drafts : ((id : Text)
              → job_draft (insert e.job_id (number, started) s.queue.jobs) id
                ≡ job_draft s.queue.jobs id) =
            λ id. ground (
              arith,
              listed,
              job_draft-insert s.queue.jobs e.job_id id number started,
              text_beq_iff e.job_id id,
            ) in
          All-append (IsKnown (insert e.job_id (number, started) s.queue.jobs)) s.tasks (task ∷ [])
            (IsKnown-of_same s.queue.jobs (insert e.job_id (number, started) s.queue.jobs) s.tasks
              (λ id _. drafts id) sound.known)
            (
              record {
                listed = drafts e.job_id ∙ ground (arith, listed);
                read_draft = λ read some_read. absurd (ground (arith, some_read));
              },
              tt,
            );
    }

next_round-IsSound :
    (env : AgentEnv) (s s' : AgentState)
    → IsSound env s
    → next_round env s ≡ some s'
    → IsSound env s'
unfolding next_round
next_round-IsSound env s s' sound h = elim (Bool-cases (ltb s.queue.running_jobs (slots env))) [
  | inr full ↦ absurd (ground (arith, rw full at h))
  | inl free ↦ elim (Option-cases (take_first (is_startable s.queue) s.queue.waiting)) [
    | inl nothing ↦ absurd (ground (arith, rw (free, nothing) at h))
    | inr ((e, rest), taken) ↦ elim (Option-cases (lookup e.job_id s.queue.jobs)) [
      | inl unknown ↦ absurd (
          ground (
            arith,
            unknown,
            (take_first-some (is_startable s.queue) s.queue.waiting e rest taken).passes,
          ))
      | inr ((number, job), listed) ↦
          subst (IsSound env) (some-injective _ _ (rw (free, taken, listed) at h)) (
            claim-IsSound env s e rest number job sound (ground (arith, free))
              (take_first-some (is_startable s.queue) s.queue.waiting e rest taken) listed)
    ]
  ]
]

pub dispatch_from-IsSound :
    (env : AgentEnv) (fuel : ℕ) (s : AgentState)
    → IsSound env s
    → IsSound env (dispatch_from env fuel s)
unfolding dispatch_from
dispatch_from-IsSound env zero s sound = sound
dispatch_from-IsSound env (suc fuel) s sound = elim (Option-cases (next_round env s)) [
  | inl nothing ↦ rw (dispatch_from, nothing) sound
  | inr (s', next) ↦
      rw (dispatch_from, next)
        (dispatch_from-IsSound env fuel s' (next_round-IsSound env s s' sound next))
]
