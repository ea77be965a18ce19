-- ===== src/Agent/Output.antt =====
-- crates/sebenza-server/src/services/system_agent/output.rs: what an agent's reply must be. The JSON
-- library is the parameter `Json`: its values, what each is, and the derived readers.
pub mod Valid
use sebenza.Base.{
  ℕ, zero, suc, ◌+◌, ◌-◌, ◌*◌, ◌/◌, ◌%◌, ◌^◌, ◌≤◌, ◌<◌, max, Text, codes, ◌≡◌, ◌≢◌, refl, sym, ap,
  ◌∙◌, subst, ◌↔◌, ◌⊎◌, inl, inr, Bool, true, false, not, ◌&&◌, ◌||◌, Option, none, some, List, [],
  ◌∷◌, ◌++◌, map, append-nil, append_assoc, arith, Eq, ◌==◌, nat_eq, text_eq, text_beq,
  text_beq_iff, text_beq_refl, nat_beq_iff, ltb, leb, if◌then◌else◌, unwrap_or, is_some, or_else,
  is_some_and, keep_if, all, any, find, filter, filter_map, find_map, contains, length, take,
  lookup, insert, remove, is_empty, is_blank, trim, Bool-cases, Option-cases, All, byte_len,
  to_decimal, strip_prefix, strip_suffix, split_once,
}
use sebenza.World.{Result, ok, err}
use sebenza.Agent.{
  JobKind, triage, draft_help, convert, as_str, Recommendation, no_recommendation, advise, propose,
  TriageOutput, DraftHelpOutput, ConvertTargetOutput, ConvertOutput, JobOutput, triage_output,
  draft_help_output, convert_output,
}

pub data OutputError : Type 0 where
  not_json : Text → OutputError
  not_an_object : OutputError
  unsupported_version : Text → OutputError
  wrong_kind : Text → Text → OutputError
  schema : Text → Text → OutputError
  invalid : Text → OutputError

abbrev pub Fields : Type 0 → Type 0
Fields Value = List (Text × Value)

-- `serde_json::from_str`, the views of a `Value`, and `from_value` at the three types. A number is
-- its `as_u64` and its text.
pub record Json (Value : Type 0) : Type 0 where
  pub from_str : Text → Result Text Value
  pub as_object : Value → Option (Fields Value)
  pub as_number : Value → Option (Option ℕ × Text)
  pub as_string : Value → Option Text
  pub as_array : Value → Option (List Value)
  pub to_triage : Fields Value → Option TriageOutput
  pub to_draft_help : Fields Value → Option DraftHelpOutput
  pub to_convert : Fields Value → Option ConvertOutput

abbrev pub output_schema_version : ℕ
output_schema_version = 1

abbrev pub max_body_bytes : ℕ
max_body_bytes = 32 * 1024

abbrev pub max_note_bytes : ℕ
max_note_bytes = 8 * 1024

-- A check fails with an error, or passes.
abbrev pub Check : Type 0
Check = Option OutputError

-- `check?; rest`
abbrev pub and_then : {A : Type 0} → Check → Result OutputError A → Result OutputError A
and_then (some e) rest = err e
and_then none rest = rest

abbrev pub both : Check → Check → Check
both (some e) rest = some e
both none rest = rest

-- The texts name a field or a limit by `format!`.
unfoldable pub capped : Text → Text → ℕ → Check
capped field value limit =
    if ltb limit (byte_len value)
    then some
        (invalid (field ++ (codes " is longer than " ++ (to_decimal limit ++ codes " bytes"))))
    else none

unfoldable pub non_blank : Text → Text → ℕ → Check
non_blank field value limit =
    if is_blank value then some (invalid (field ++ codes " is empty")) else capped field value limit

abbrev pub check_triage_body : Recommendation → Option Text → Check
check_triage_body no_recommendation body = capped (codes "body") (unwrap_or body []) max_body_bytes
check_triage_body _ (some body) = non_blank (codes "body") body max_body_bytes
check_triage_body _ none = some (invalid (codes "advice and proposals need a body"))

unfoldable pub validate_triage : TriageOutput → Check
validate_triage out =
    both (non_blank (codes "rationale") out.rationale max_note_bytes)
      (check_triage_body out.recommendation out.body)

-- The loop over the targets, with the projects seen.
unfoldable pub check_targets :
    List Text → List Text → List ConvertTargetOutput → Result OutputError (List Text)
check_targets expected seen [] = ok seen
check_targets expected seen (target ∷ targets) =
    let rest = check_targets expected (target.project ∷ seen) targets in
    and_then (non_blank (codes "project") target.project max_note_bytes) (
      and_then (non_blank (codes "system_instruction") target.system_instruction max_body_bytes) (
        if contains seen target.project
        then err (invalid (codes "a target project appears twice"))
        else if not (is_empty expected) && not (contains expected target.project)
        then err (invalid (codes "a target project was not asked for"))
        else rest))

abbrev pub check_missing : List Text → Result OutputError (List Text) → Check
check_missing expected (err e) = some e
check_missing expected (ok seen) =
    if any (λ p. not (contains seen p)) expected
    then some (invalid (codes "a requested target project is missing"))
    else none

unfoldable pub validate_convert : ConvertOutput → List Text → Check
validate_convert out expected =
    if is_empty out.targets
    then some (invalid (codes "targets is empty"))
    else check_missing expected (check_targets expected [] out.targets)

module _ {Value : Type 0} where
  -- `fields.remove(key)`: the value, and the other fields.
  abbrev pub take_field : Text → Fields Value → Option Value × Fields Value
  take_field key fields = (lookup key fields, remove key fields)

  unfoldable pub check_keys : Text → Fields Value → List Text → List Text → Check
  check_keys kind fields required optional =
      elim (find (λ f. not (contains required f.0) && not (contains optional f.0)) fields) [
        | some (unknown, _) ↦
            some (schema kind (codes "unknown field `" ++ (take 64 unknown ++ codes "`")))
        | none ↦ elim (find (λ k. not (is_some (lookup k fields))) required) [
          | some missing ↦ some (schema kind (codes "missing field `" ++ (missing ++ codes "`")))
          | none ↦ none
        ]
      ]

-- The text behind the line of the language tag.
unfoldable pub without_tag : Text → Text
without_tag body = elim (split_once (0x0a ∷ []) body) [
  | some (tag, inner) ↦ if not (contains tag b'{') then trim inner else trim body
  | none ↦ trim body
]

unfoldable pub strip_code_fence : Text → Text
strip_code_fence text = elim (strip_prefix (codes "```") text) [
  | none ↦ text
  | some rest ↦ elim (strip_suffix (codes "```") rest) [
    | none ↦ text
    | some body ↦ without_tag body
  ]
]

abbrev pub typed : {T : Type 0} → Text → Option T → Result OutputError T
typed kind none = err (schema kind (codes "a field has the wrong type or an unsupported value"))
typed kind (some t) = ok t

-- `?` on a typed value
abbrev pub with_value :
    {T : Type 0}
    → Result OutputError T
    → (T → Result OutputError JobOutput)
    → Result OutputError JobOutput
with_value (err e) f = err e
with_value (ok t) f = f t

module _ {Value : Type 0} (json : Json Value) where
  unfoldable pub check_version : Option Value → Check
  check_version none = some (unsupported_version (codes "(missing)"))
  check_version (some value) = elim (json.as_number value) [
    | none ↦ some (unsupported_version (codes "(not a number)"))
    | some (n, shown) ↦
        if is_some_and n (λ v. v == output_schema_version)
        then none
        else some (unsupported_version shown)
  ]

  abbrev pub known_kind : Text → Text
  known_kind got =
      unwrap_or (find (λ k. k == got) (as_str triage ∷ as_str draft_help ∷ as_str convert ∷ []))
        (codes "(unknown)")

  unfoldable pub check_kind : Text → Option Value → Check
  check_kind expected none = some (wrong_kind expected (codes "(missing)"))
  check_kind expected (some value) = elim (json.as_string value) [
    | none ↦ some (wrong_kind expected (codes "(missing)"))
    | some got ↦ if got == expected then none else some (wrong_kind expected (known_kind got))
  ]

  unfoldable pub parse_triage : Fields Value → Result OutputError JobOutput
  parse_triage fields =
      and_then
        (check_keys (as_str triage) fields
          (codes "priority" ∷ codes "rationale" ∷ codes "recommendation" ∷ []) (codes "body" ∷ []))
        (with_value (typed (as_str triage) (json.to_triage fields))
          λ out. and_then (validate_triage out) (ok (triage_output out)))

  unfoldable pub parse_draft_help : Fields Value → Result OutputError JobOutput
  parse_draft_help fields =
      and_then
        (check_keys (as_str draft_help) fields (codes "proposed_body" ∷ codes "summary" ∷ []) [])
        (with_value (typed (as_str draft_help) (json.to_draft_help fields)) λ out.
          and_then (non_blank (codes "proposed_body") out.proposed_body max_body_bytes) (
            and_then (capped (codes "summary") out.summary max_note_bytes)
              (ok (draft_help_output out))))

  -- The loop over the targets as JSON.
  unfoldable pub check_target_keys : List Value → Check
  check_target_keys [] = none
  check_target_keys (target ∷ targets) =
      let rest = check_target_keys targets in
      elim (json.as_object target) [
        | none ↦ some (schema (as_str convert) (codes "each target must be an object"))
        | some t ↦
            both
              (check_keys (as_str convert) t (codes "project" ∷ codes "system_instruction" ∷ []) [])
              rest
      ]

  abbrev pub check_targets_field : Option Value → Check
  check_targets_field none = none
  check_targets_field (some value) = elim (json.as_array value) [
    | none ↦ none
    | some targets ↦ check_target_keys targets
  ]

  unfoldable pub parse_convert : Fields Value → List Text → Result OutputError JobOutput
  parse_convert fields expected_targets =
      and_then (check_keys (as_str convert) fields (codes "targets" ∷ []) []) (
        and_then (check_targets_field (lookup (codes "targets") fields)) (
          with_value (typed (as_str convert) (json.to_convert fields))
            λ out. and_then (validate_convert out expected_targets) (ok (convert_output out))))

  unfoldable pub parse_kind : JobKind → Fields Value → List Text → Result OutputError JobOutput
  parse_kind triage fields expected_targets = parse_triage fields
  parse_kind draft_help fields expected_targets = parse_draft_help fields
  parse_kind convert fields expected_targets = parse_convert fields expected_targets

  unfoldable pub parse_fields : JobKind → Fields Value → List Text → Result OutputError JobOutput
  parse_fields kind fields expected_targets =
      let (version, rest) = take_field (codes "schema_version") fields in
      let (got, others) = take_field (codes "job_kind") rest in
      and_then (check_version version)
        (and_then (check_kind (as_str kind) got) (parse_kind kind others expected_targets))

  unfoldable pub parse_job_output : JobKind → Text → List Text → Result OutputError JobOutput
  parse_job_output kind message expected_targets =
      elim (json.from_str (strip_code_fence (trim message))) [
        | err e ↦ err (not_json e)
        | ok value ↦ elim (json.as_object value) [
          | none ↦ err not_an_object
          | some fields ↦ parse_fields kind fields expected_targets
        ]
      ]
