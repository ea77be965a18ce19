-- ===== src/Tests/Agent.antt =====
-- Two jobs for one draft with one slot, and a reply that is read by a small JSON library.
use sebenza.Base.{
  strip_prefix, byte_len, trim_matches, trim_end_matches, drop_while, rev, is_whitespace, ℕ, zero,
  suc, ◌≤◌, Text, codes, ◌≡◌, refl, ap, ◌↔◌, Bool, true, none, some, [], ◌∷◌, arith, nat_eq,
  text_eq, text_beq, find, contains, length, lookup, insert, remove, is_empty, trim,
}
use sebenza.World.{ok}
use sebenza.Draft.{Priority.p1}
use sebenza.Agent.{
  as_str, kind_of, is_interactive, JobInput, draft_help_input, TriageOutput, triage_output, triage,
  advise,
}
use sebenza.Agent.Queue.{
  dispatch, dispatch_from, next_round, claim, take_first, insert_waiting, key_ltb, check_input,
  waiting_for, mark, AgentEnv, AgentState, slots,
}
use sebenza.Agent.Queue.Run.{push_job, enqueue_new}
use sebenza.Agent.Queue.Counts.{count, task_drafts}
use sebenza.Agent.Queue.Sound.{places}
use sebenza.Agent.Queue.Slots.{Reached, start, next, enqueued, new_service, Reached-slots}
use sebenza.Agent.Queue.Settled.{IsSettled, Reached-IsSettled}
use sebenza.Agent.Output.{
  parse_fields, parse_kind, parse_triage, check_version, check_kind, check_keys, validate_triage,
  non_blank, capped, strip_code_fence, Json, parse_job_output,
}
use sebenza.Agent.Output.Valid.{IsValid, parse_job_output-IsValid}

-- Ids are numerals in base one.
abbrev id_of : ℕ → Text
id_of zero = []
id_of (suc n) = b'i' ∷ id_of n

id_of_inj : (j k : ℕ) → id_of j ≡ id_of k → j ≡ k
id_of_inj zero zero e = refl
id_of_inj zero (suc k) e = absurd (ground (arith, e))
id_of_inj (suc j) zero e = absurd (ground (arith, e))
id_of_inj (suc j) (suc k) e = ap suc (id_of_inj j k (ground (arith, e)))

abbrev env : AgentEnv
env = record { enabled = true; has_runtime = true; max_concurrent = 0; ulid = id_of; now = λ _. [] }

abbrev any_draft : Text → Bool
any_draft _ = true

abbrev help : JobInput
help = draft_help_input none

abbrev one_job : AgentState
one_job = (enqueue_new env any_draft (codes "d") help new_service).1

abbrev two_jobs : AgentState
two_jobs = (enqueue_new env any_draft (codes "d") help one_job).1

two_jobs-Reached : Reached env two_jobs
two_jobs-Reached =
    next (next start (enqueued any_draft (codes "d") help new_service))
      (enqueued any_draft (codes "d") help one_job)

Reached-slots_example :
    (length two_jobs.tasks ≤ slots env)
    × ((d : Text) → count d (task_drafts two_jobs.tasks) ≤ 1)
    × ((d : Text)
        → (contains two_jobs.queue.busy d ≡ true) ↔ (count d (task_drafts two_jobs.tasks) ≡ 1))
    × ((id : Text) → places two_jobs id ≤ 1)
Reached-slots_example = Reached-slots env two_jobs id_of_inj two_jobs-Reached

Reached-IsSettled_example : IsSettled env two_jobs
Reached-IsSettled_example = Reached-IsSettled env two_jobs refl two_jobs-Reached

-- One runs, and the other waits for it.
second_waits : (two_jobs.queue.running_jobs ≡ 1) × (length two_jobs.queue.waiting ≡ 1)
unfolding enqueue_new push_job dispatch dispatch_from next_round claim take_first insert_waiting
    key_ltb check_input waiting_for lookup insert text_beq mark contains kind_of is_interactive
second_waits = (refl, refl)

-- The one reply that the library of this test can read.
data Reply : Type 0 where
  whole one word : Reply

abbrev advice : TriageOutput
advice = record {
  priority = p1;
  rationale = codes "r";
  recommendation = advise;
  body = some (codes "wait");
}

abbrev json : Json Reply
json = record {
  from_str = λ _. ok whole;
  as_object = λ v. elim v [
    | whole ↦ some (
        (codes "schema_version", one)
        ∷ (codes "job_kind", word)
        ∷ (codes "priority", word)
        ∷ (codes "rationale", word)
        ∷ (codes "recommendation", word)
        ∷ [])
    | _ ↦ none
  ];
  as_number = λ v. elim v [ one ↦ some (some 1, codes "1") | _ ↦ none ];
  as_string = λ v. elim v [ word ↦ some (codes "triage") | _ ↦ none ];
  as_array = λ _. none;
  to_triage = λ _. some advice;
  to_draft_help = λ _. none;
  to_convert = λ _. none;
}

advice_read : parse_job_output json triage (codes "{}") [] ≡ ok (triage_output advice)
unfolding parse_job_output parse_fields parse_kind parse_triage check_version check_kind check_keys
    validate_triage non_blank capped strip_code_fence strip_prefix lookup remove find contains
    text_beq as_str byte_len trim trim_matches trim_end_matches drop_while rev is_whitespace
    is_empty
advice_read = refl

parse_job_output-IsValid_example : IsValid triage [] (triage_output advice)
parse_job_output-IsValid_example =
    parse_job_output-IsValid json triage (codes "{}") [] (triage_output advice) advice_read
