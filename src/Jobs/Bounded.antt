-- ===== src/Jobs/Bounded.antt =====
-- The table of jobs stays small.
use sebenza.Base.{
  ℕ, ◌-◌, ◌≤◌, Text, ◌≡◌, inl, inr, true, false, none, some, List, [], ◌∷◌, ◌++◌, arith, nat_eq,
  text_eq, text_beq_iff, ltb, is_some, filter, contains, length, lookup, insert, remove, Bool-cases,
  Option-cases, lookup-insert, lookup-remove, contains-append,
}
use sebenza.Convert.{is_created, ConversionOutcome}
use sebenza.Jobs.{
  outcome, done, broken, ConversionJobManager, new_manager, max_retained_jobs, JobState, JobEvent,
  evict, start_job, change_job, push_outcome, finish, fail_job,
}

pub data JobStep (ulid : ℕ → Text) : ConversionJobManager → ConversionJobManager → Type 0 where
  started :
      (draft_id : Text) (total : ℕ) (m : ConversionJobManager)
      → JobStep ulid m (start_job ulid draft_id total m).1
  pushed :
      (id : Text) (result : ConversionOutcome) (m : ConversionJobManager)
      → JobStep ulid m (push_outcome id result m)
  finished : (id : Text) (m : ConversionJobManager) → JobStep ulid m (finish id m)
  broke : (id error : Text) (m : ConversionJobManager) → JobStep ulid m (fail_job id error m)

pub data Reached (ulid : ℕ → Text) : ConversionJobManager → Type 0 where
  new : Reached ulid new_manager
  next : {m m' : ConversionJobManager} → Reached ulid m → JobStep ulid m m' → Reached ulid m'

-- The jobs are among those of a list of ids.
abbrev pub AreAmong : List (Text × JobState) → List Text → Type 0
AreAmong jobs order = (id : Text) → is_some (lookup id jobs) ≡ true → contains order id ≡ true

pub record IsBounded (m : ConversionJobManager) : Type 0 where
  pub few : length m.order ≤ max_retained_jobs
  pub among : AreAmong m.jobs m.order

evict-AreAmong :
    (limit : ℕ) (order : List Text) (jobs : List (Text × JobState))
    → AreAmong jobs order
    → (length (evict limit order jobs).0 ≤ limit)
      × AreAmong (evict limit order jobs).1 (evict limit order jobs).0
unfolding evict contains
evict-AreAmong limit [] jobs among = (omega arith, among)
evict-AreAmong limit (oldest ∷ later) jobs among =
    let others : AreAmong (remove oldest jobs) later =
      λ id known. ground (arith, known, among id, lookup-remove oldest id jobs) in
    elim (Bool-cases (ltb limit (length (oldest ∷ later)))) [
      | inl many ↦ rw (evict, many) (evict-AreAmong limit later (remove oldest jobs) others)
      | inr fits ↦ rw (evict, fits) (ground (arith, fits), among)
    ]

change_job-IsBounded :
    (id : Text) (change : JobState → JobState) (event : JobState → JobEvent)
    (m : ConversionJobManager)
    → IsBounded m
    → IsBounded (change_job id change event m)
unfolding change_job
change_job-IsBounded id change event m bounded = elim (Option-cases (lookup id m.jobs)) [
  | inl unknown ↦ rw (change_job, unknown) bounded
  | inr (state, known) ↦
      rw (change_job, known)
        (record {
          few = bounded.few;
          among = λ other found. ground (
            arith,
            found,
            known,
            bounded.among other,
            bounded.among id,
            lookup-insert id other (change state) m.jobs,
            text_beq_iff id other,
          );
        })
]

step-IsBounded :
    (ulid : ℕ → Text) {m m' : ConversionJobManager} → IsBounded m → JobStep ulid m m' → IsBounded m'
unfolding start_job push_outcome finish fail_job contains
step-IsBounded ulid bounded (started draft_id total m) =
    let id = ulid m.ids_drawn in
    let state : JobState = record {
      draft_id = draft_id;
      total = total;
      outcomes = [];
      is_finished = false;
      error = none;
    } in
    let (few, among) =
      evict-AreAmong max_retained_jobs (m.order ++ id ∷ []) (insert id state m.jobs) (λ other found.
        ground (
          arith,
          found,
          bounded.among other,
          lookup-insert id other state m.jobs,
          contains-append m.order (id ∷ []) other,
        )) in
    record { few = few; among = among }
step-IsBounded ulid bounded (pushed id result m) =
    change_job-IsBounded id (λ s. record s { outcomes = s.outcomes ++ result ∷ [] })
      (λ s. outcome (length s.outcomes - 1) s.total result) m bounded
step-IsBounded ulid bounded (finished id m) =
    change_job-IsBounded id (λ s. record s { is_finished = true })
      (λ s. done (length (filter is_created s.outcomes)) s.total) m bounded
step-IsBounded ulid bounded (broke id error m) =
    change_job-IsBounded id (λ s. record s { is_finished = true; error = some error })
      (λ s. broken error) m bounded

-- Whatever jobs are started, reported on and closed, and even if ids were drawn twice: at most 64 ids are
-- kept, and every job of the table is one of them.
pub Reached-IsBounded : (ulid : ℕ → Text) (m : ConversionJobManager) → Reached ulid m → IsBounded m
unfolding lookup
Reached-IsBounded ulid m new = record {
  few = omega arith;
  among = λ id known. absurd (ground (arith, known));
}
Reached-IsBounded ulid m (next {m = before} reached step) =
    step-IsBounded ulid (Reached-IsBounded ulid before reached) step
