-- ===== src/Agent.antt =====
-- The jobs of the system agent: the types of
-- crates/sebenza-server/src/services/system_agent/mod.rs and of output.rs beside it.
pub mod Output
pub mod Queue
pub mod Apply
use sebenza.Base.{
  ℕ, zero, suc, ◌+◌, ◌-◌, ◌*◌, ◌/◌, ◌%◌, ◌^◌, ◌≤◌, ◌<◌, max, Text, codes, ◌≡◌, ◌≢◌, refl, sym, ap,
  ◌∙◌, subst, ◌↔◌, ◌⊎◌, inl, inr, Bool, true, false, not, ◌&&◌, ◌||◌, Option, none, some, List, [],
  ◌∷◌, ◌++◌, map, append-nil, append_assoc, arith, Eq, ◌==◌, nat_eq, text_eq, text_beq,
  text_beq_iff, text_beq_refl, nat_beq_iff, ltb, leb, if◌then◌else◌, unwrap_or, is_some, or_else,
  is_some_and, keep_if, all, any, find, filter, filter_map, find_map, contains, length, take,
  lookup, insert, remove, is_empty, is_blank, trim, Bool-cases, Option-cases, All,
}
use sebenza.Draft.{Priority}

pub data JobKind : Type 0 where
  triage draft_help convert : JobKind

unfoldable pub as_str : JobKind → Text
as_str triage = codes "triage"
as_str draft_help = codes "draft_help"
as_str convert = codes "convert"

unfoldable pub is_interactive : JobKind → Bool
is_interactive triage = false
is_interactive draft_help = true
is_interactive convert = true

unfoldable pub job_kind_beq : JobKind → JobKind → Bool
job_kind_beq triage triage = true
job_kind_beq draft_help draft_help = true
job_kind_beq convert convert = true
job_kind_beq _ _ = false

pub job_kind_beq_iff : (a b : JobKind) → (job_kind_beq a b ≡ true) ↔ (a ≡ b)
unfolding job_kind_beq
job_kind_beq_iff a b = ground arith

instance abbrev pub job_kind_eq : Eq JobKind
job_kind_eq = record { beq = job_kind_beq; beq_iff = job_kind_beq_iff }

-- A triage of a request, by its attempt; help with a draft, by an instruction; and the conversion
-- for some targets, with the operator's prompt.
pub data JobInput : Type 0 where
  triage_input : Text → ℕ → JobInput
  draft_help_input : Option Text → JobInput
  convert_input : List Text → Option Text → JobInput

unfoldable pub kind_of : JobInput → JobKind
kind_of (triage_input _ _) = triage
kind_of (draft_help_input _) = draft_help
kind_of (convert_input _ _) = convert

pub data JobStatus : Type 0 where
  queued running succeeded failed : JobStatus

unfoldable pub is_terminal : JobStatus → Bool
is_terminal queued = false
is_terminal running = false
is_terminal succeeded = true
is_terminal failed = true

pub data Recommendation : Type 0 where
  no_recommendation advise propose : Recommendation

pub record TriageOutput : Type 0 where
  pub priority : Priority
  pub rationale : Text
  pub recommendation : Recommendation
  pub body : Option Text

pub record DraftHelpOutput : Type 0 where
  pub proposed_body : Text
  pub summary : Text

pub record ConvertTargetOutput : Type 0 where
  pub project : Text
  pub system_instruction : Text

pub record ConvertOutput : Type 0 where
  pub targets : List ConvertTargetOutput

pub data JobOutput : Type 0 where
  triage_output : TriageOutput → JobOutput
  draft_help_output : DraftHelpOutput → JobOutput
  convert_output : ConvertOutput → JobOutput

pub record JobRecord : Type 0 where
  pub job_id : Text
  pub draft_id : Text
  pub kind : JobKind
  pub request_id : Option Text
  pub attempt : ℕ
  pub status : JobStatus
  pub output : Option JobOutput
  pub error : Option Text
  pub reseeded : Bool
  pub enqueued_at : Text
  pub started_at : Option Text
  pub finished_at : Option Text
  pub input : JobInput
