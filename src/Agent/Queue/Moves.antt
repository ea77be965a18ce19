-- ===== src/Agent/Queue/Moves.antt =====
-- What a new job, the start of a run and the forgetting of finished jobs do to the invariant of the queue.
use sebenza.Base.{
  ℕ, suc, ◌+◌, ◌%◌, ◌^◌, ◌≤◌, Text, ◌≡◌, refl, sym, ap, ◌∙◌, subst, inl, inr, some, List, [], ◌∷◌,
  ◌++◌, arith, ◌==◌, nat_eq, text_eq, text_beq_iff, ltb, length, lookup, remove, Bool-cases,
  Option-cases, All,
}
use mathlib.Core.Option.{some-injective}
use sebenza.Agent.{JobRecord, JobInput, JobOutput}
use sebenza.Agent.Queue.{AgentState, AgentEnv, Waiting, Task, job_draft}
use sebenza.Agent.Queue.Run.{new_job, push_job, begin_run, forget_from, lane_of}
use sebenza.Agent.Queue.Counts.{
  count, task_ids, task_drafts, one_if, count-insert_waiting, job_draft-insert, job_draft-remove,
}
use sebenza.Agent.Queue.Sound.{places, IsKnown, IsSound, IsKnown-of_same}

pub push_job-IsSound :
    (env : AgentEnv) (draft_id : Text) (input : JobInput) (s : AgentState)
    → ((j k : ℕ) → env.ulid j ≡ env.ulid k → j ≡ k)
    → IsSound env s
    → IsSound env (push_job env s draft_id input)
unfolding push_job count
push_job-IsSound env draft_id input s distinct sound =
    let id = env.ulid s.ids_drawn in
    let number = (s.queue.seq + 1) % 2 ^ 64 in
    let entry : Waiting = record {
      lane = lane_of (sebenza.Agent.kind_of input);
      number = number;
      job_id = id;
    } in
    let more : ((other : Text)
        → places (push_job env s draft_id input) other ≡ places s other + one_if (id == other)) =
      λ other. ground (arith, count-insert_waiting other entry s.queue.waiting) in
    record {
      used = sound.used;
      within = sound.within;
      items = sound.items;
      once = λ other. ground (
        arith,
        more other,
        sound.once other,
        sound.undrawn s.ids_drawn (omega arith),
        text_beq_iff id other,
      );
      undrawn = λ k le. ground (
        arith,
        more (env.ulid k),
        sound.undrawn k (omega (arith, le)),
        distinct s.ids_drawn k,
        text_beq_iff id (env.ulid k),
        le,
      );
      known =
          IsKnown-of_same s.queue.jobs _ s.tasks
            (λ other some_task. ground (
              arith,
              some_task,
              sound.undrawn s.ids_drawn (omega arith),
              job_draft-insert s.queue.jobs id other number (new_job env s draft_id input),
              text_beq_iff id other,
            ))
            sound.known;
    }

-- The tasks on both sides of one.
pub count-task_ids :
    (id : Text) (before : List Task) (task : Task) (after : List Task)
    → count id (task_ids (before ++ task ∷ after))
      ≡ count id (task_ids (before ++ after)) + one_if (task.job_id == id)
unfolding count
count-task_ids id [] task after = ground arith
count-task_ids id (t ∷ before) task after = ground (arith, count-task_ids id before task after)

pub count-task_drafts :
    (d : Text) (before : List Task) (task : Task) (after : List Task)
    → count d (task_drafts (before ++ task ∷ after))
      ≡ count d (task_drafts (before ++ after)) + one_if (task.draft_id == d)
unfolding count
count-task_drafts d [] task after = ground arith
count-task_drafts d (t ∷ before) task after = ground (arith, count-task_drafts d before task after)

pub All-cut :
    {A : Type 0} (P : A → Type 0) (before : List A) (a : A) (after : List A)
    → All P (before ++ a ∷ after)
    → P a × All P (before ++ after)
All-cut P [] a after (h, hs) = (h, hs)
All-cut P (b ∷ before) a after (h, hs) =
    let (first, others) = All-cut P before a after hs in (first, (h, others))

All-joined :
    {A : Type 0} (P : A → Type 0) (before : List A) (a : A) (after : List A)
    → P a
    → All P (before ++ after)
    → All P (before ++ a ∷ after)
All-joined P [] a after h hs = (h, hs)
All-joined P (b ∷ before) a after h (k, hs) = (k, All-joined P before a after h hs)

pub length_split :
    (before : List Task) (task : Task) (after : List Task)
    → length (before ++ task ∷ after) ≡ suc (length (before ++ after))
length_split [] task after = refl
length_split (t ∷ before) task after = ground (arith, length_split before task after)

-- The task has read the record of its job.
reading-IsSound :
    (env : AgentEnv) (before : List Task) (task : Task) (after : List Task) (job : JobRecord)
    (s : AgentState)
    → s.tasks ≡ before ++ task ∷ after
    → job.draft_id ≡ task.draft_id
    → IsSound env s
    → IsSound env (record s { tasks = before ++ (record task { read = some job } ∷ after) })
reading-IsSound env before task after job s split same sound =
    let reader : Task = record task { read = some job } in
    let (mine, others) =
      All-cut (IsKnown s.queue.jobs) before task after
        (subst (All (IsKnown s.queue.jobs)) split sound.known) in
    let ids : ((id : Text)
        → count id (task_ids (before ++ reader ∷ after)) ≡ count id (task_ids s.tasks)) =
      λ id.
        count-task_ids id before reader after
        ∙ sym (ap (λ l. count id (task_ids l)) split ∙ count-task_ids id before task after) in
    record {
      used = ground (
        arith,
        sound.used,
        ap length split,
        length_split before task after,
        length_split before reader after,
      );
      within = sound.within;
      items = λ d.
          count-task_drafts d before reader after
          ∙ sym (ap (λ l. count d (task_drafts l)) split ∙ count-task_drafts d before task after)
          ∙ sound.items d;
      once = λ id. omega (arith, ids id, sound.once id);
      undrawn = λ k le. omega (arith, ids (env.ulid k), sound.undrawn k le);
      known =
          All-joined (IsKnown s.queue.jobs) before reader after
            (record {
              listed = mine.listed;
              read_draft =
                  λ j e. ap (λ (r : JobRecord). r.draft_id) (sym (some-injective job j e)) ∙ same;
            })
            others;
    }

pub begin_run-IsSound :
    (env : AgentEnv) (before : List Task) (task : Task) (after : List Task) (s : AgentState)
    → s.tasks ≡ before ++ task ∷ after
    → IsSound env s
    → IsSound env (begin_run before task after s)
unfolding begin_run
begin_run-IsSound env before task after s split sound =
    let (mine, others) =
      All-cut (IsKnown s.queue.jobs) before task after
        (subst (All (IsKnown s.queue.jobs)) split sound.known) in
    elim (Option-cases (lookup task.job_id s.queue.jobs)) [
      | inl unknown ↦ absurd (ground (arith, unknown, mine.listed))
      | inr ((number, job), listed) ↦
          rw (begin_run, listed)
            (reading-IsSound env before task after job s split (ground (arith, listed, mine.listed))
              sound)
    ]

-- Forgetting takes ids off the front, and nothing of other jobs.
pub record IsForgotten (finished : List Text) (jobs : List (Text × (ℕ × JobRecord)))
    (kept : List Text) (known : List (Text × (ℕ × JobRecord))) : Type 0 where
  pub fewer : (id : Text) → count id kept ≤ count id finished
  pub others : (id : Text) → count id finished ≡ 0 → job_draft known id ≡ job_draft jobs id

pub forget_from-IsForgotten :
    (limit : ℕ) (finished : List Text) (jobs : List (Text × (ℕ × JobRecord)))
    → IsForgotten finished jobs
        (forget_from limit finished jobs).0
        (forget_from limit finished jobs).1
unfolding forget_from count
forget_from-IsForgotten limit [] jobs = record { fewer = λ id. omega arith; others = λ id h. refl }
forget_from-IsForgotten limit (old ∷ later) jobs =
    let rest = forget_from-IsForgotten limit later (remove old jobs) in
    elim (Bool-cases (ltb limit (length (old ∷ later)))) [
      | inl too_many ↦
          rw (forget_from, too_many)
            (record {
              fewer = λ id. ground (arith, rest.fewer id);
              others = λ id h. ground (arith, h, rest.others id, job_draft-remove jobs old id);
            })
      | inr few ↦
          rw (forget_from, few) (record { fewer = λ id. omega arith; others = λ id h. refl })
    ]
