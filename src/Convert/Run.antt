-- ===== src/Convert/Run.antt =====
-- Running the conversions of crates/common/src/services/inbox_convert.rs, and the prompts that worktrees
-- are launched with. The runner's methods are the parameter `Runner`; each may answer by the calls
-- before it.
pub mod Careful
use sebenza.Base.{
  ℕ, zero, suc, ◌+◌, ◌-◌, ◌*◌, ◌/◌, ◌%◌, ◌^◌, ◌≤◌, ◌<◌, max, Text, codes, ◌≡◌, ◌≢◌, refl, sym, ap,
  ◌∙◌, subst, ◌↔◌, ◌⊎◌, inl, inr, Bool, true, false, not, ◌&&◌, ◌||◌, Option, none, some, List, [],
  ◌∷◌, ◌++◌, map, append-nil, append_assoc, arith, Eq, ◌==◌, nat_eq, text_eq, text_beq,
  text_beq_iff, text_beq_refl, nat_beq_iff, ltb, leb, if◌then◌else◌, unwrap_or, is_some, or_else,
  is_some_and, keep_if, all, any, find, filter, filter_map, find_map, contains, length, take,
  lookup, insert, remove, is_empty, is_blank, trim, Bool-cases, Option-cases, All, trim_end_matches,
  is_whitespace,
}
use sebenza.Draft.{DraftStatus, promoted}
use sebenza.World.{Result, ok, err}
use sebenza.Convert.{
  ConversionTarget, ConversionOutcome, outcome_created, outcome_failed, is_created,
}

unfoldable pub status_after : DraftStatus → List ConversionOutcome → DraftStatus
status_after current outcomes = if any is_created outcomes then promoted else current

pub data LaunchMode : Type 0 where
  architect_first direct : LaunchMode

pub record LaunchPrompt : Type 0 where
  pub mode : LaunchMode
  pub text : Text

pub record LaunchPromptInput : Type 0 where
  pub title : Text
  pub note_path : Text
  pub operator_prompt : Text
  pub system_instruction : Option Text
  pub wants_architect : Bool
  pub sebenza_workspace : Bool

abbrev pub note_rel_path : Text
note_rel_path = codes ".ai/sebenza/inbox-note.md"

unfoldable pub diagram_hint : Text
diagram_hint =
    codes
      "Any Mermaid diagrams in it are the operator's intended structure: carry them into the design rather than re-deriving them. Lines starting `%% sebenza:` are diagram-editor metadata; ignore them."

abbrev blank_line : Text
blank_line = 0x0a ∷ 0x0a ∷ []

-- `map(str::trim).filter(|s| !s.is_empty())`
abbrev pub stated : Option Text → Option Text
stated none = none
stated (some s) = if is_blank s then none else some (trim s)

unfoldable pub item_line : Text → Text → Text
item_line title note =
    if is_empty title
    then codes "The inbox item is described in full at `" ++ (note ++ codes "`.")
    else codes "The inbox item "
      ++ (b'"' ∷ (title ++ (b'"' ∷ (codes " is described in full at `" ++ (note ++ codes "`.")))))

unfoldable pub block : Text → Text → Text
block heading s = if is_empty s then [] else heading ++ (0x0a ∷ (s ++ blank_line))

unfoldable pub inputs_named : Bool → Bool → Text
inputs_named false true =
    codes " together with the operator instruction and the system instruction below"
inputs_named false false = codes " together with the operator instruction below"
inputs_named true true = codes " together with the system instruction below"
inputs_named true false = []

-- `ArchitectFirstPromptBuilder::build`
unfoldable pub build : LaunchPromptInput → LaunchPrompt
build input =
    let system = stated input.system_instruction in
    let operator = trim input.operator_prompt in
    let item = item_line (trim input.title) input.note_path in
    let blocks =
      block (codes "Operator instruction:") operator
      ++ block (codes "System instruction:") (unwrap_or system []) in
    if input.wants_architect && input.sebenza_workspace
    then record {
      mode = architect_first;
      text =
          codes
            "Start with the Sebenza architect. Before anything else, run the `sebenza-architect` skill ("
          ++ (b'"'
              ∷ (codes "design this feature"
                  ++ (b'"'
                      ∷ (codes
                            ") to architect this worktree's portion of the overall inbox item. Other worktrees may own other portions, so design only what this worktree is asked for."
                          ++ (blank_line
                              ++ (item
                                  ++ (codes
                                        " Read it first and give it to the architect as the feature description"
                                      ++ (inputs_named (is_empty operator) (is_some system)
                                          ++ (codes ". "
                                              ++ (diagram_hint
                                                  ++ (blank_line
                                                      ++ (blocks
                                                          ++ codes
                                                            "Once the design is approved, continue with the Sebenza workflow."))))))))))));
    }
    else record {
      mode = direct;
      text = trim_end_matches is_whitespace (
          item
          ++ (codes " Read it first: it is the context for this work. "
              ++ (diagram_hint ++ (blank_line ++ blocks))));
    }

-- A call of a method that acts, with whether it succeeded.
pub data Call : Type 0 where
  create : ConversionTarget → Bool → Call
  note exclude : Text → Bool → Call
  origin : Text → Call
  prompt : Text → Bool → Call

pub record Runner : Type 0 where
  pub create_worktree : List Call → ConversionTarget → Result Text Text
  pub write_note : List Call → Text → Text → Result Text Unit
  pub exclude_note : List Call → Text → Result Text Unit
  pub send_prompt : List Call → ConversionTarget → Text → Result Text Unit
  pub has_sebenza_workspace : List Call → ConversionTarget → Bool
  pub now : List Call → Text

pub record ConversionItem : Type 0 where
  pub draft_id : Text
  pub title : Text
  pub body : Text

abbrev pub launch_of : Runner → ConversionItem → ConversionTarget → List Call → LaunchPrompt
launch_of runner item target calls =
    let wants = unwrap_or target.architect_first true in
    build record {
      title = item.title;
      note_path = note_rel_path;
      operator_prompt = target.prompt;
      system_instruction = stated target.system_instruction;
      wants_architect = wants;
      sebenza_workspace = wants && runner.has_sebenza_workspace calls target;
    }

abbrev pub is_architect_first : LaunchMode → Bool
is_architect_first architect_first = true
is_architect_first direct = false

-- The closure `record`
abbrev pub recorded : ConversionTarget → LaunchPrompt → ConversionOutcome → ConversionOutcome
recorded target launch outcome = record outcome {
  system_instruction = stated target.system_instruction;
  architect_first = is_architect_first launch.mode;
}

module _ (runner : Runner) (item : ConversionItem) (target : ConversionTarget)
    (launch : LaunchPrompt) where
  -- The closure `fail`
  abbrev pub fail : Text → List Call → ConversionOutcome × List Call
  fail e calls = (recorded target launch (outcome_failed target e (runner.now calls)), calls)

  -- From the prompt on.
  unfoldable pub run_prompt : Text → List Call → ConversionOutcome × List Call
  run_prompt path calls =
      elim (runner.send_prompt calls (record target { prompt = launch.text }) path) [
        | err e ↦ fail e (calls ++ prompt path false ∷ [])
        | ok _ ↦
            let sent = calls ++ prompt path true ∷ [] in
            (recorded target launch (outcome_created target path (runner.now sent)), sent)
      ]

  -- From the exclusion of the note on; what becomes of the origin is ignored.
  unfoldable pub run_exclude : Text → List Call → ConversionOutcome × List Call
  run_exclude path calls = elim (runner.exclude_note calls path) [
    | err e ↦ fail e (calls ++ exclude path false ∷ [])
    | ok _ ↦ run_prompt path (calls ++ exclude path true ∷ origin path ∷ [])
  ]

  unfoldable pub run_note : Text → List Call → ConversionOutcome × List Call
  run_note path calls = elim (runner.write_note calls path item.body) [
    | err e ↦ fail e (calls ++ note path false ∷ [])
    | ok _ ↦ run_exclude path (calls ++ note path true ∷ [])
  ]

  unfoldable pub run_create : List Call → ConversionOutcome × List Call
  run_create calls = elim (runner.create_worktree calls target) [
    | err e ↦ fail e (calls ++ create target false ∷ [])
    | ok path ↦ run_note path (calls ++ create target true ∷ [])
  ]

unfoldable pub run_one :
    Runner → ConversionItem → ConversionTarget → List Call → ConversionOutcome × List Call
run_one runner item target calls =
    run_create runner item target (launch_of runner item target calls) calls

-- `on_outcome` is told of the outcomes one by one, which are the list that comes back.
unfoldable pub run_conversion_item :
    Runner → ConversionItem → List ConversionTarget → List Call → List ConversionOutcome × List Call
run_conversion_item runner item [] calls = ([], calls)
run_conversion_item runner item (target ∷ targets) calls =
    let (outcome, calls1) = run_one runner item target calls in
    let (outcomes, calls2) = run_conversion_item runner item targets calls1 in
    (outcome ∷ outcomes, calls2)

unfoldable pub run_conversion :
    Runner → Text → Text → List ConversionTarget → List Call → List ConversionOutcome × List Call
run_conversion runner draft_id body targets calls =
    run_conversion_item runner (record { draft_id = draft_id; title = []; body = body }) targets
      calls
