-- ===== src/Jobs.antt =====
-- crates/sebenza-server/src/services/inbox_jobs.rs: the table of conversion jobs. The random ids are the
-- parameter `ulid`, by the number of earlier draws; what subscribers are sent is a list.
pub mod Bounded
use sebenza.Base.{
  ℕ, zero, suc, ◌+◌, ◌-◌, ◌*◌, ◌/◌, ◌%◌, ◌^◌, ◌≤◌, ◌<◌, max, Text, codes, ◌≡◌, ◌≢◌, refl, sym, ap,
  ◌∙◌, subst, ◌↔◌, ◌⊎◌, inl, inr, Bool, true, false, not, ◌&&◌, ◌||◌, Option, none, some, List, [],
  ◌∷◌, ◌++◌, map, append-nil, append_assoc, arith, Eq, ◌==◌, nat_eq, text_eq, text_beq,
  text_beq_iff, text_beq_refl, nat_beq_iff, ltb, leb, if◌then◌else◌, unwrap_or, is_some, or_else,
  is_some_and, keep_if, all, any, find, filter, filter_map, find_map, contains, length, take,
  lookup, insert, remove, is_empty, is_blank, trim, Bool-cases, Option-cases, All,
}
use sebenza.Convert.{ConversionOutcome, is_created}

unfoldable pub max_retained_jobs : ℕ
max_retained_jobs = 64

pub data JobEvent : Type 0 where
  -- index, total, outcome
  outcome : ℕ → ℕ → ConversionOutcome → JobEvent
  -- created, total
  done : ℕ → ℕ → JobEvent
  broken : Text → JobEvent

pub record JobState : Type 0 where
  pub draft_id : Text
  pub total : ℕ
  pub outcomes : List ConversionOutcome
  pub is_finished : Bool
  pub error : Option Text

pub record JobSnapshot : Type 0 where
  pub id : Text
  pub state : JobState

pub record ConversionJobManager : Type 0 where
  pub jobs : List (Text × JobState)
  pub order : List Text
  pub sent : List (Text × JobEvent)
  pub ids_drawn : ℕ

abbrev pub new_manager : ConversionJobManager
new_manager = record { jobs = []; order = []; sent = []; ids_drawn = 0 }

-- The loop that drops the oldest jobs. Each round takes one.
unfoldable pub evict : ℕ → List Text → List (Text × JobState) → List Text × List (Text × JobState)
evict limit [] jobs = ([], jobs)
evict limit (oldest ∷ later) jobs =
    let rest = evict limit later (remove oldest jobs) in
    if ltb limit (length (oldest ∷ later)) then rest else (oldest ∷ later, jobs)

unfoldable pub start_job :
    (ℕ → Text) → Text → ℕ → ConversionJobManager → Text × ConversionJobManager
start_job ulid draft_id total m =
    let id = ulid m.ids_drawn in
    let state : JobState = record {
      draft_id = draft_id;
      total = total;
      outcomes = [];
      is_finished = false;
      error = none;
    } in
    let (order, jobs) = evict max_retained_jobs (m.order ++ id ∷ []) (insert id state m.jobs) in
    (id, record m { jobs = jobs; order = order; ids_drawn = suc m.ids_drawn })

-- A change of a job that is known, and the event that is sent of it.
unfoldable pub change_job :
    Text
    → (JobState → JobState)
    → (JobState → JobEvent)
    → ConversionJobManager
    → ConversionJobManager
change_job id change event m = elim (lookup id m.jobs) [
  | none ↦ m
  | some state ↦ record m {
    jobs = insert id (change state) m.jobs;
    sent = m.sent ++ (id, event (change state)) ∷ [];
  }
]

unfoldable pub push_outcome : Text → ConversionOutcome → ConversionJobManager → ConversionJobManager
unfolding change_job
push_outcome id result m =
    change_job id (λ s. record s { outcomes = s.outcomes ++ result ∷ [] })
      (λ s. outcome (length s.outcomes - 1) s.total result) m

unfoldable pub finish : Text → ConversionJobManager → ConversionJobManager
unfolding change_job
finish id m =
    change_job id (λ s. record s { is_finished = true })
      (λ s. done (length (filter is_created s.outcomes)) s.total) m

unfoldable pub fail_job : Text → Text → ConversionJobManager → ConversionJobManager
unfolding change_job
fail_job id error m =
    change_job id (λ s. record s { is_finished = true; error = some error }) (λ s. broken error) m

unfoldable pub snapshot : Text → ConversionJobManager → Option JobSnapshot
snapshot id m = elim (lookup id m.jobs) [
  | none ↦ none
  | some state ↦ some (record { id = id; state = state })
]
