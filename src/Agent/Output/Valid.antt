-- ===== src/Agent/Output/Valid.antt =====
-- Only a reply of the kind asked for, in form and within the limits, is a result.
use sebenza.Base.{
  unwrap_or, ℕ, ◌≤◌, Text, codes, ◌≡◌, ◌≢◌, refl, subst, inl, inr, Bool, true, false, not, ◌&&◌,
  ◌||◌, Option, none, some, List, [], ◌∷◌, map, arith, nat_eq, text_eq, text_beq_iff, if◌then◌else◌,
  all, any, contains, lookup, remove, is_empty, is_blank, trim, Bool-cases, Option-cases, All,
  byte_len,
}
use sebenza.World.{Result-cases, Result, ok, err}
use sebenza.Agent.{
  as_str, JobKind, triage, draft_help, convert, Recommendation, no_recommendation, advise, propose,
  TriageOutput, DraftHelpOutput, ConvertTargetOutput, ConvertOutput, JobOutput, triage_output,
  draft_help_output, convert_output,
}
use sebenza.Agent.Output.{
  Json, Fields, max_body_bytes, max_note_bytes, capped, non_blank, validate_triage,
  check_triage_body, check_targets, validate_convert, check_missing, parse_triage, parse_draft_help,
  parse_convert, parse_kind, parse_fields, parse_job_output, both, and_then, with_value, typed,
  check_keys, OutputError, check_targets_field, check_version, check_kind, strip_code_fence,
}

-- A text that says something, in at most so many bytes.
pub record IsWithin (limit : ℕ) (value : Text) : Type 0 where
  pub says : is_blank value ≡ false
  pub fits : byte_len value ≤ limit

abbrev pub projects : List ConvertTargetOutput → List Text
projects targets = map (λ t. t.project) targets

unfoldable pub no_repeats : List Text → Bool
no_repeats [] = true
no_repeats (x ∷ xs) = if contains xs x then false else no_repeats xs

pub record IsValidTarget (target : ConvertTargetOutput) : Type 0 where
  pub project : IsWithin max_note_bytes target.project
  pub system_instruction : IsWithin max_body_bytes target.system_instruction

-- A result of the kind: a triage with a rationale, with a body where it advises or proposes, and with none
-- that is too long where it recommends nothing; a
-- body and a summary for a draft; and for a conversion at least one target, none twice, all of those
-- asked for, and no others if any were.
pub data IsValid : JobKind → List Text → JobOutput → Type 0 where
  triage_IsValid :
      (expected : List Text) (out : TriageOutput)
      → IsWithin max_note_bytes out.rationale
      → (out.recommendation ≢ no_recommendation
          → (body : Text) × (out.body ≡ some body) × IsWithin max_body_bytes body)
      → ((body : Text) → out.body ≡ some body → byte_len body ≤ max_body_bytes)
      → IsValid triage expected (triage_output out)
  draft_help_IsValid :
      (expected : List Text) (out : DraftHelpOutput)
      → IsWithin max_body_bytes out.proposed_body
      → byte_len out.summary ≤ max_note_bytes
      → IsValid draft_help expected (draft_help_output out)
  convert_IsValid :
      (expected : List Text) (out : ConvertOutput)
      → is_empty out.targets ≡ false
      → All IsValidTarget out.targets
      → no_repeats (projects out.targets) ≡ true
      → (is_empty expected ≡ false → all (contains expected) (projects out.targets) ≡ true)
      → all (contains (projects out.targets)) expected ≡ true
      → IsValid convert expected (convert_output out)

capped-none :
    (field value : Text) (limit : ℕ) → capped field value limit ≡ none → byte_len value ≤ limit
unfolding capped
capped-none field value limit h = ground (arith, h)

non_blank-none :
    (field value : Text) (limit : ℕ) → non_blank field value limit ≡ none → IsWithin limit value
unfolding non_blank
non_blank-none field value limit h = elim (Bool-cases (is_blank value)) [
  | inl blank ↦ absurd (ground (arith, h, blank))
  | inr says ↦ record {
    says = says;
    fits = capped-none field value limit (ground (arith, h, says));
  }
]

both-none : (c d : Option OutputError) → both c d ≡ none → (c ≡ none) × (d ≡ none)
both-none none d h = (refl, h)
both-none (some e) d h = absurd (ground (arith, h))

and_then-ok :
    {A : Type 0} (c : Option OutputError) (r : Result OutputError A) (a : A)
    → and_then c r ≡ ok a
    → (c ≡ none) × (r ≡ ok a)
and_then-ok none r a h = (refl, h)
and_then-ok (some e) r a h = absurd (ground (arith, h))

refusal-ok :
    {A : Type 0} (b : Bool) (e : OutputError) (r : Result OutputError A) (a : A)
    → (if b then err e else r) ≡ ok a
    → (b ≡ false) × (r ≡ ok a)
refusal-ok false e r a h = (refl, h)
refusal-ok true e r a h = absurd (ground (arith, h))

check_triage_body-none :
    (recommendation : Recommendation) (body : Option Text)
    → check_triage_body recommendation body ≡ none
    → recommendation ≢ no_recommendation
    → (text : Text) × (body ≡ some text) × IsWithin max_body_bytes text
check_triage_body-none no_recommendation body h other = absurd (other refl)
check_triage_body-none advise (some body) h other =
    (body, refl, non_blank-none (codes "body") body max_body_bytes h)
check_triage_body-none advise none h other = absurd (ground (arith, h))
check_triage_body-none propose (some body) h other =
    (body, refl, non_blank-none (codes "body") body max_body_bytes h)
check_triage_body-none propose none h other = absurd (ground (arith, h))

check_triage_body-fits :
    (recommendation : Recommendation) (body : Option Text)
    → check_triage_body recommendation body ≡ none
    → (text : Text) → body ≡ some text
    → byte_len text ≤ max_body_bytes
check_triage_body-fits no_recommendation body h text is =
    capped-none (codes "body") text max_body_bytes (rw is at h)
check_triage_body-fits advise (some body) h text is =
    subst (λ o. byte_len (unwrap_or o []) ≤ max_body_bytes) is
      (non_blank-none (codes "body") body max_body_bytes h).fits
check_triage_body-fits advise none h text is = absurd (ground (arith, is))
check_triage_body-fits propose (some body) h text is =
    subst (λ o. byte_len (unwrap_or o []) ≤ max_body_bytes) is
      (non_blank-none (codes "body") body max_body_bytes h).fits
check_triage_body-fits propose none h text is = absurd (ground (arith, is))

validate_triage-none :
    (expected : List Text) (out : TriageOutput)
    → validate_triage out ≡ none
    → IsValid triage expected (triage_output out)
unfolding validate_triage
validate_triage-none expected out h =
    let (rationale, body) =
      both-none (non_blank (codes "rationale") out.rationale max_note_bytes)
        (check_triage_body out.recommendation out.body) h in
    triage_IsValid expected out
      (non_blank-none (codes "rationale") out.rationale max_note_bytes rationale)
      (check_triage_body-none out.recommendation out.body body)
      (check_triage_body-fits out.recommendation out.body body)

-- The targets that pass the loop.
record IsChecked (expected seen : List Text) (targets : List ConvertTargetOutput)
    (all_seen : List Text) : Type 0 where
  valid : All IsValidTarget targets
  fresh : all (λ p. not (contains seen p)) (projects targets) ≡ true
  distinct : no_repeats (projects targets) ≡ true
  asked : is_empty expected ≡ false → all (contains expected) (projects targets) ≡ true
  members : (p : Text) → contains all_seen p ≡ (contains seen p || contains (projects targets) p)

fresh_weaken :
    (q : Text) (seen ps : List Text)
    → all (λ p. not (contains (q ∷ seen) p)) ps ≡ true
    → (all (λ p. not (contains seen p)) ps ≡ true) × (contains ps q ≡ false)
unfolding all contains
fresh_weaken q seen [] h = (refl, refl)
fresh_weaken q seen (p ∷ ps) h =
    ground (arith, h, fresh_weaken q seen ps, text_beq_iff q p, text_beq_iff p q)

check_targets-ok :
    (expected seen : List Text) (targets : List ConvertTargetOutput) (all_seen : List Text)
    → check_targets expected seen targets ≡ ok all_seen
    → IsChecked expected seen targets all_seen
unfolding check_targets all contains no_repeats
check_targets-ok expected seen [] all_seen h = record {
  valid = tt;
  fresh = refl;
  distinct = refl;
  asked = λ _. refl;
  members = λ p. ground (arith, h);
}
check_targets-ok expected seen (target ∷ targets) all_seen h =
    let (named, h1) =
      and_then-ok (non_blank (codes "project") target.project max_note_bytes) _ all_seen h in
    let (instructed, h2) =
      and_then-ok (non_blank (codes "system_instruction") target.system_instruction max_body_bytes)
        _ all_seen h1 in
    let (once, h3) = refusal-ok (contains seen target.project) _ _ all_seen h2 in
    let (wanted, h4) =
      refusal-ok (not (is_empty expected) && not (contains expected target.project)) _ _ all_seen
        h3 in
    let rest = check_targets-ok expected (target.project ∷ seen) targets all_seen h4 in
    record {
      valid = (
        record {
          project = non_blank-none (codes "project") target.project max_note_bytes named;
          system_instruction =
              non_blank-none (codes "system_instruction") target.system_instruction max_body_bytes
                instructed;
        },
        rest.valid,
      );
      fresh = ground (arith, once, fresh_weaken target.project seen (projects targets) rest.fresh);
      distinct =
          ground
            (arith, rest.distinct, fresh_weaken target.project seen (projects targets) rest.fresh);
      asked = λ some_asked. ground (arith, wanted, some_asked, rest.asked some_asked);
      members = λ p. ground (arith, rest.members p);
    }

all_seen-all :
    (expected seen all_seen : List Text)
    → ((p : Text) → contains all_seen p ≡ contains seen p)
    → any (λ p. not (contains all_seen p)) expected ≡ false
    → all (contains seen) expected ≡ true
unfolding any all
all_seen-all [] seen all_seen same h = refl
all_seen-all (p ∷ expected) seen all_seen same h =
    ground (arith, h, same p, all_seen-all expected seen all_seen same)

check_missing-none :
    (expected : List Text) (r : Result OutputError (List Text))
    → check_missing expected r ≡ none
    → (seen : List Text) × (r ≡ ok seen) × (any (λ p. not (contains seen p)) expected ≡ false)
check_missing-none expected (err e) h = absurd (ground (arith, h))
check_missing-none expected (ok seen) h = (seen, refl, ground (arith, h))

validate_convert-none :
    (expected : List Text) (out : ConvertOutput)
    → validate_convert out expected ≡ none
    → IsValid convert expected (convert_output out)
unfolding validate_convert contains
validate_convert-none expected out h = elim (Bool-cases (is_empty out.targets)) [
  | inl no_targets ↦ absurd (ground (arith, h, no_targets))
  | inr some_targets ↦
      let (seen, passed, missing) =
        check_missing-none expected (check_targets expected [] out.targets)
          (rw some_targets at h) in
      let checked = check_targets-ok expected [] out.targets seen passed in
      convert_IsValid expected out some_targets checked.valid checked.distinct checked.asked
        (all_seen-all expected (projects out.targets) seen checked.members missing)
]

with_value-ok :
    {T : Type 0} (r : Result OutputError T) (f : T → Result OutputError JobOutput) (out : JobOutput)
    → with_value r f ≡ ok out
    → (t : T) × (f t ≡ ok out)
with_value-ok (ok t) f out h = (t, h)
with_value-ok (err e) f out h = absurd (ground (arith, h))

-- A check, and then a value that is read and judged.
then_value-ok :
    {T : Type 0} (c : Option OutputError) (r : Result OutputError T)
    (f : T → Result OutputError JobOutput) (out : JobOutput)
    → and_then c (with_value r f) ≡ ok out
    → (t : T) × (f t ≡ ok out)
then_value-ok c r f out h = with_value-ok r f out (and_then-ok c (with_value r f) out h).1

ok_inj :
    {T : Type 0} (a b : T) (P : T → Type 0) → P a → Path (Result OutputError T) (ok a) (ok b) → P b
ok_inj a b P p h = subst P (ground (arith, h)) p

module _ {Value : Type 0} (json : Json Value) where
  parse_kind-IsValid :
      (kind : JobKind) (fields : Fields Value) (expected : List Text) (out : JobOutput)
      → parse_kind json kind fields expected ≡ ok out
      → IsValid kind expected out
  unfolding parse_kind parse_triage parse_draft_help parse_convert
  parse_kind-IsValid triage fields expected out h =
      let (t, h1) =
        then_value-ok _ (typed (as_str triage) (json.to_triage fields))
          (λ t. and_then (validate_triage t) (ok (triage_output t))) out h in
      let (valid, h2) = and_then-ok (validate_triage t) (ok (triage_output t)) out h1 in
      ok_inj (triage_output t) out (IsValid triage expected) (validate_triage-none expected t valid)
        h2
  parse_kind-IsValid draft_help fields expected out h =
      let body =
        λ (t : DraftHelpOutput). non_blank (codes "proposed_body") t.proposed_body max_body_bytes in
      let summary = λ (t : DraftHelpOutput). capped (codes "summary") t.summary max_note_bytes in
      let (t, h1) =
        then_value-ok _ (typed (as_str draft_help) (json.to_draft_help fields))
          (λ t. and_then (body t) (and_then (summary t) (ok (draft_help_output t)))) out h in
      let (said, h2) = and_then-ok (body t) _ out h1 in
      let (fits, h3) = and_then-ok (summary t) _ out h2 in
      ok_inj (draft_help_output t) out (IsValid draft_help expected)
        (draft_help_IsValid expected t
          (non_blank-none (codes "proposed_body") t.proposed_body max_body_bytes said)
          (capped-none (codes "summary") t.summary max_note_bytes fits))
        h3
  parse_kind-IsValid convert fields expected out h =
      let f =
        λ (t : ConvertOutput). and_then (validate_convert t expected) (ok (convert_output t)) in
      let read = typed (as_str convert) (json.to_convert fields) in
      let (keyed, h0) =
        and_then-ok (check_keys (as_str convert) fields (codes "targets" ∷ []) []) _ out h in
      let (t, h1) =
        then_value-ok (check_targets_field json (lookup (codes "targets") fields)) read f out h0 in
      let (valid, h2) = and_then-ok (validate_convert t expected) (ok (convert_output t)) out h1 in
      ok_inj (convert_output t) out (IsValid convert expected)
        (validate_convert-none expected t valid) h2

  parse_fields-IsValid :
      (kind : JobKind) (fields : Fields Value) (expected : List Text) (out : JobOutput)
      → parse_fields json kind fields expected ≡ ok out
      → IsValid kind expected out
  unfolding parse_fields
  parse_fields-IsValid kind fields expected out h =
      parse_kind-IsValid kind (remove (codes "job_kind") (remove (codes "schema_version") fields))
        expected out
        (and_then-ok
          (check_kind json (as_str kind)
            (lookup (codes "job_kind") (remove (codes "schema_version") fields)))
          _ out
          (and_then-ok (check_version json (lookup (codes "schema_version") fields)) _ out h).1).1

  -- Whatever an agent replies and however the JSON library reads it: if the reply is taken as the
  -- result of a job of some kind, then it is `IsValid` for that kind and the targets asked for.
  pub parse_job_output-IsValid :
      (kind : JobKind) (message : Text) (expected : List Text) (out : JobOutput)
      → parse_job_output json kind message expected ≡ ok out
      → IsValid kind expected out
  unfolding parse_job_output
  parse_job_output-IsValid kind message expected out h =
      elim (Result-cases (json.from_str (strip_code_fence (trim message)))) [
        | inr (e, failed) ↦ absurd (ground (arith, rw (failed, parse_job_output) at h))
        | inl (value, read) ↦ elim (Option-cases (json.as_object value)) [
          | inl no_object ↦ absurd (ground (arith, rw (parse_job_output, read, no_object) at h))
          | inr (fields, object) ↦
              parse_fields-IsValid kind fields expected out
                (rw (parse_job_output, read, object) at h)
        ]
      ]
