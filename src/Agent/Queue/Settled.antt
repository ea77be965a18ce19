-- ===== src/Agent/Queue/Settled.antt =====
-- No job waits that could run.
use sebenza.Base.{
  ℕ, zero, suc, ◌≤◌, Text, ◌≡◌, refl, sym, ap, ◌∙◌, ◌⊎◌, inl, inr, Bool, true, false, not, Option,
  none, some, List, [], ◌∷◌, ◌++◌, arith, nat_eq, text_eq, ltb, leb, if◌then◌else◌, all, length,
  lookup, Bool-cases, Option-cases,
}
use mathlib.Core.Option.{some-injective}
use sebenza.Agent.{JobRecord, JobInput}
use sebenza.Agent.Queue.{
  AgentState, AgentEnv, Waiting, Task, is_startable, take_first, onto_rest, slots, dispatch,
  dispatch_from, next_round, claim_known, claim, max_queued_per_item, waiting_for, check_input,
  dedupe_key,
}
use sebenza.Agent.Queue.Run.{push_job, enqueue_new, begin_run, end_run, close_job, tell, known_job}
use sebenza.Agent.Queue.Counts.{take_first-some}
use sebenza.Agent.Queue.Slots.{AgentStep, enqueued, begun, ended, Reached, start, next}

-- All slots are taken, or every job that waits and is known is for an item that is busy.
abbrev pub IsSettled : AgentEnv → AgentState → Type 0
IsSettled env s =
    (slots env ≤ s.queue.running_jobs)
    ⊎ (all (λ e. not (is_startable s.queue e)) s.queue.waiting ≡ true)

onto_rest-none :
    (e : Waiting) (r : Option (Waiting × List Waiting)) → onto_rest e r ≡ none → r ≡ none
onto_rest-none e none h = refl
onto_rest-none e (some (found, rest)) h = absurd (ground (arith, h))

take_first-none :
    (p : Waiting → Bool) (entries : List Waiting)
    → take_first p entries ≡ none
    → all (λ e. not (p e)) entries ≡ true
unfolding take_first all
take_first-none p [] h = refl
take_first-none p (e ∷ entries) h = ground (
  arith,
  h,
  take_first-none p entries,
  (λ (r : Option (Waiting × List Waiting)). onto_rest-none e r),
)

next_round-none : (env : AgentEnv) (s : AgentState) → next_round env s ≡ none → IsSettled env s
unfolding next_round
next_round-none env s h = elim (Bool-cases (ltb s.queue.running_jobs (slots env))) [
  | inr full ↦ inl (ground (arith, full))
  | inl free ↦ elim (Option-cases (take_first (is_startable s.queue) s.queue.waiting)) [
    | inl nothing ↦ inr (take_first-none (is_startable s.queue) s.queue.waiting nothing)
    | inr ((e, rest), taken) ↦ absurd (ground (arith, rw (free, taken) at h))
  ]
]

waiting-claim_known :
    (env : AgentEnv) (s : AgentState) (id : Text) (rest : List Waiting) (o : Option (ℕ × JobRecord))
    → length (claim_known env s id rest o).queue.waiting ≡ length rest
unfolding claim
waiting-claim_known env s id rest none = refl
waiting-claim_known env s id rest (some (number, job)) = refl

none_waits :
    (p : Waiting → Bool) (entries : List Waiting) → length entries ≤ 0 → all p entries ≡ true
unfolding all
none_waits p [] h = refl
none_waits p (e ∷ entries) h = absurd (omega (arith, h))

-- Each round takes one of the jobs that wait.
next_round-shorter :
    (env : AgentEnv) (s s' : AgentState)
    → next_round env s ≡ some s'
    → length s.queue.waiting ≡ suc (length s'.queue.waiting)
unfolding next_round claim
next_round-shorter env s s' h = elim (Bool-cases (ltb s.queue.running_jobs (slots env))) [
  | inr full ↦ absurd (ground (arith, rw full at h))
  | inl free ↦ elim (Option-cases (take_first (is_startable s.queue) s.queue.waiting)) [
    | inl nothing ↦ absurd (ground (arith, rw (free, nothing) at h))
    | inr ((e, rest), taken) ↦
        let same =
          some-injective (claim_known env s e.job_id rest (lookup e.job_id s.queue.jobs)) s'
            (rw (free, taken) at h) in
        (take_first-some (is_startable s.queue) s.queue.waiting e rest taken).shorter
        ∙ ap suc (
            sym (waiting-claim_known env s e.job_id rest (lookup e.job_id s.queue.jobs))
            ∙ ap (λ (t : AgentState). length t.queue.waiting) same)
  ]
]

dispatch_from-IsSettled :
    (env : AgentEnv) (fuel : ℕ) (s : AgentState)
    → length s.queue.waiting ≤ fuel
    → IsSettled env (dispatch_from env fuel s)
unfolding dispatch_from all
dispatch_from-IsSettled env zero s enough =
    inr (none_waits (λ e. not (is_startable s.queue e)) s.queue.waiting enough)
dispatch_from-IsSettled env (suc fuel) s enough = elim (Option-cases (next_round env s)) [
  | inl nothing ↦ rw (dispatch_from, nothing) (next_round-none env s nothing)
  | inr (s', more) ↦
      rw (dispatch_from, more)
        (dispatch_from-IsSettled env fuel s'
          (omega (arith, enough, next_round-shorter env s s' more)))
]

if_answer-IsSettled :
    {R : Type 0} (env : AgentEnv) (b : Bool) (x y : R × AgentState)
    → IsSettled env x.1
    → IsSettled env y.1
    → IsSettled env (if b then x else y).1
if_answer-IsSettled env true x y h k = h
if_answer-IsSettled env false x y h k = k

enqueue_new-IsSettled :
    (env : AgentEnv) (inbox : Text → Bool) (draft_id : Text) (input : JobInput) (s : AgentState)
    → IsSettled env s
    → IsSettled env (enqueue_new env inbox draft_id input s).1
unfolding enqueue_new dispatch
enqueue_new-IsSettled env inbox draft_id input s settled =
    if_answer-IsSettled env (not env.enabled) _ _ settled (
      if_answer-IsSettled env (not env.has_runtime) _ _ settled
        (elim (Option-cases (check_input input)) [
          | inr (e, bad) ↦ rw bad settled
          | inl fine ↦ rw fine (
              if_answer-IsSettled env (not (inbox draft_id)) _ _ settled
                (elim (Option-cases (known_job s (dedupe_key draft_id input))) [
                  | inr (existing, found) ↦ rw found settled
                  | inl unknown ↦ rw unknown (
                      if_answer-IsSettled env
                        (leb max_queued_per_item
                          (waiting_for s.queue.jobs draft_id s.queue.waiting))
                        _ _ settled
                        (dispatch_from-IsSettled env
                          (length (push_job env s draft_id input).queue.waiting)
                          (push_job env s draft_id input) (omega arith)))
                ]))
        ]))

begin_run-IsSettled :
    (env : AgentEnv) (before : List Task) (task : Task) (after : List Task) (s : AgentState)
    → IsSettled env s
    → IsSettled env (begin_run before task after s)
unfolding begin_run
begin_run-IsSettled env before task after s settled =
    elim (Option-cases (lookup task.job_id s.queue.jobs)) [
      | inl unknown ↦ rw (begin_run, unknown) settled
      | inr ((number, job), listed) ↦ rw (begin_run, listed) settled
    ]

tell-IsSettled :
    (env : AgentEnv) (told : Option (ℕ × JobRecord)) (s : AgentState)
    → IsSettled env s
    → IsSettled env (tell told s)
unfolding tell
tell-IsSettled env none s settled = settled
tell-IsSettled env (some (number, job)) s settled = settled

if_IsSettled :
    (env : AgentEnv) (b : Bool) (x y : AgentState)
    → b ≡ true
    → IsSettled env x
    → IsSettled env (if b then x else y)
if_IsSettled env true x y h k = k
if_IsSettled env false x y h k = absurd (ground (arith, h))

step-IsSettled :
    (env : AgentEnv)
    → env.has_runtime ≡ true
    → {s s' : AgentState} → IsSettled env s
    → AgentStep env s s'
    → IsSettled env s'
unfolding end_run dispatch
step-IsSettled env runs settled (enqueued inbox draft_id input s) =
    enqueue_new-IsSettled env inbox draft_id input s settled
step-IsSettled env runs settled (begun before task after s split unread) =
    begin_run-IsSettled env before task after s settled
step-IsSettled env runs settled (ended result before task job after s split read) =
    let closed = close_job env result task job (record s { tasks = before ++ after }) in
    tell-IsSettled env _ _ (
      if_IsSettled env env.has_runtime (dispatch env closed) closed runs
        (dispatch_from-IsSettled env (length closed.queue.waiting) closed (omega arith)))

-- Whenever the lock is free, no job waits that could run: all slots are taken, or each job that waits
-- and is known is for an item with another job running. It is so when the service was built inside a
-- runtime, and `dispatch` ends, since each round takes one of the waiting jobs.
pub Reached-IsSettled :
    (env : AgentEnv) (s : AgentState) → env.has_runtime ≡ true → Reached env s → IsSettled env s
unfolding all
Reached-IsSettled env s runs start = inr refl
Reached-IsSettled env s runs (next {s = before} reached step) =
    step-IsSettled env runs (Reached-IsSettled env before runs reached) step
