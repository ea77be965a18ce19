-- ===== src/ContentScan.antt =====
-- crates/common/src/services/content_scan.rs, and the advisories of crates/common/src/services/inbox_convert.rs:
-- what looks like a secret or like health data in a text. The code reads bytes; all that it looks for is ASCII,
-- and a byte of a longer character is none of it, so that characters serve as well.
pub mod Keys
pub mod Names
use sebenza.Base.{
  ℕ, zero, suc, ◌-◌, ◌≡◌, Text, codes, Bool, true, false, not, Option, none, some, List, [], ◌∷◌,
  ◌++◌, map, ◌==◌, ◌&&◌, ◌||◌, if◌then◌else◌, nat_eq, text_eq, leb, ltb, any, filter, contains,
  length, is_some, is_ascii_alphanumeric, is_ascii_digit, to_ascii_lowercase, strip_prefix,
  filter_map,
}

-- A character that a key is made of.
unfoldable pub is_secret_char : ℕ → Bool
is_secret_char c = is_ascii_alphanumeric c || c == b'-' || c == b'_'

-- `take_while(…).count()`
unfoldable pub count_while : (ℕ → Bool) → Text → ℕ
count_while p [] = 0
count_while p (c ∷ s) = let rest = count_while p s in if p c then suc rest else 0

-- Whether a match after `previous` stands at a word boundary.
unfoldable pub is_boundary : Option ℕ → Bool
is_boundary none = true
is_boundary (some c) = not (is_ascii_alphanumeric c)

-- The loop of `looks_like_key` from a position that is not yet inside a match that was looked at: `skip`
-- characters of that match are left.
unfoldable pub looks_from : Text → ℕ → Option ℕ → ℕ → Text → Bool
looks_from prefix min_tail previous skip [] = false
looks_from prefix min_tail previous (suc skip) (c ∷ s) = looks_from prefix min_tail (some c) skip s
looks_from prefix min_tail previous zero (c ∷ s) =
    let later = looks_from prefix min_tail (some c) zero s in
    let behind = looks_from prefix min_tail (some c) (length prefix - 1) s in
    elim (strip_prefix prefix (c ∷ s)) [
      | none ↦ later
      | some tail ↦
          if is_boundary previous && leb min_tail (count_while is_secret_char tail)
          then true
          else behind
    ]

unfoldable pub looks_like_key : Text → Text → ℕ → Bool
looks_like_key text prefix min_tail = looks_from prefix min_tail none zero text

abbrev pub Pattern : Type 0
Pattern = Text × Text × ℕ

abbrev pub secret_patterns : List Pattern
secret_patterns =
    (codes "AWS access key", codes "AKIA", 16)
    ∷ (codes "GitHub token", codes "ghp_", 20)
    ∷ (codes "GitHub fine-grained token", codes "github_pat_", 20)
    ∷ (codes "Slack token", codes "xoxb-", 10)
    ∷ (codes "private key block", codes "-----BEGIN", 0)
    ∷ (codes "OpenAI-style key", codes "sk-", 20)
    ∷ []

unfoldable pub secret_hit_names : Text → List Text
secret_hit_names text = map (λ p. p.0) (filter (λ p. looks_like_key text p.1 p.2) secret_patterns)

pub record Advisory : Type 0 where
  pub kind : Text
  pub message : Text

unfoldable pub draft_advisory : Text → Advisory
draft_advisory label = record {
  kind = codes "secret";
  message =
      codes "This draft looks like it contains "
      ++ label
      ++ codes " text. It will be copied into every worktree and sent to the agent.";
}

unfoldable pub scan_for_secrets : Text → List Advisory
scan_for_secrets text = map draft_advisory (secret_hit_names text)

unfoldable pub sandbox_advisory : Text → Bool → Option Advisory
sandbox_advisory branch true = none
sandbox_advisory branch false = some (record {
  kind = codes "sandbox";
  message =
      branch
      ++ codes
          " will run unsandboxed, so anything pasted into this draft reaches an agent with shell access.";
})

unfoldable pub comment_advisory : Text → Advisory
comment_advisory label = record {
  kind = codes "secret";
  message =
      codes "A comment on this draft looks like it contains "
      ++ label
      ++ codes " text. Comments inform the system instructions sent to each worktree's agent.";
}

-- The labels, each where it was first met.
unfoldable pub push_distinct : List Text → List Text → List Text
push_distinct labels [] = labels
push_distinct labels (label ∷ more) =
    push_distinct (if contains labels label then labels else labels ++ label ∷ []) more

unfoldable pub comment_labels : List Text → List Text → List Text
comment_labels labels [] = labels
comment_labels labels (comment ∷ comments) =
    comment_labels (push_distinct labels (secret_hit_names comment)) comments

unfoldable pub scan_item_for_secrets : Text → List Text → List Advisory
scan_item_for_secrets body comments =
    scan_for_secrets body ++ map comment_advisory (comment_labels [] comments)

abbrev pub phi_ssn : Text
phi_ssn = codes "likely PHI: SSN"

abbrev pub phi_mrn : Text
phi_mrn = codes "likely PHI: medical record number"

abbrev pub phi_dob : Text
phi_dob = codes "likely PHI: date of birth"

unfoldable pub joins : Option ℕ → Bool
joins none = false
joins (some c) = is_ascii_alphanumeric c || c == b'-' || c == b'_'

unfoldable pub first : Text → Option ℕ
first [] = none
first (c ∷ s) = some c

-- What is left behind a text of the shape, whose every `d` is a digit.
unfoldable pub behind_shape : Text → Text → Option Text
behind_shape [] s = some s
behind_shape (want ∷ shape) [] = none
behind_shape (want ∷ shape) (c ∷ s) =
    let rest = behind_shape shape s in
    if (if want == b'd' then is_ascii_digit c else c == want) then rest else none

unfoldable pub ssn_at : Option ℕ → Text → Bool
ssn_at previous s = elim (behind_shape (codes "ddd-dd-dddd") s) [
  | none ↦ false
  | some rest ↦ not (joins previous) && not (joins (first rest))
]

-- Whether a test, which sees the character before, holds at any position of a text.
unfoldable pub anywhere : (Option ℕ → Text → Bool) → Option ℕ → Text → Bool
anywhere test previous [] = false
anywhere test previous (c ∷ s) =
    let later = anywhere test (some c) s in if test previous (c ∷ s) then true else later

unfoldable pub has_ssn : Text → Bool
has_ssn s = anywhere ssn_at none s

unfoldable pub is_gap : ℕ → Bool
is_gap c = c == b':' || c == b'#' || c == b' ' || c == b'='

unfoldable pub skip_gap : ℕ → Text → Text
skip_gap zero s = s
skip_gap (suc left) [] = []
skip_gap (suc left) (c ∷ s) = let rest = skip_gap left s in if is_gap c then rest else c ∷ s

unfoldable pub is_alphanumeric_option : Option ℕ → Bool
is_alphanumeric_option none = false
is_alphanumeric_option (some c) = is_ascii_alphanumeric c

unfoldable pub keyword_at : Text → (Text → Bool) → Option ℕ → Text → Bool
keyword_at keyword then_test previous s = elim (strip_prefix keyword s) [
  | none ↦ false
  | some rest ↦
      not (is_alphanumeric_option previous)
      && not (is_alphanumeric_option (first rest))
      && then_test (skip_gap 4 rest)
]

unfoldable pub keyword_then : Text → List Text → (Text → Bool) → Bool
keyword_then s keywords then_test =
    any (λ keyword. anywhere (keyword_at keyword then_test) none s) keywords

unfoldable pub digits_at : Text → ℕ
digits_at s = count_while is_ascii_digit s

unfoldable pub drop_chars : ℕ → Text → Text
drop_chars zero s = s
drop_chars (suc n) [] = []
drop_chars (suc n) (c ∷ s) = drop_chars n s

unfoldable pub is_date_separator : Option ℕ → Bool
is_date_separator none = false
is_date_separator (some c) = c == b'-' || c == b'/' || c == b'.'

-- The lengths of the groups of digits, `left` more than one of which are still to come, and what is behind.
unfoldable pub date_groups : ℕ → Text → Option (List ℕ × Text)
date_groups zero s =
    let n = digits_at s in if n == 0 || ltb 4 n then none else some (n ∷ [], drop_chars n s)
date_groups (suc left) s =
    let n = digits_at s in
    let rest = drop_chars n s in
    let later = date_groups left (drop_chars 1 rest) in
    if n == 0 || ltb 4 n
    then none
    else if is_date_separator (first rest)
    then elim later [ none ↦ none | some (groups, end) ↦ some (n ∷ groups, end) ]
    else none

unfoldable pub looks_like_date : Text → Bool
looks_like_date s = elim (date_groups 2 s) [
  | some (a ∷ b ∷ c ∷ [], rest) ↦ leb b 2 && (a == 4 || leb 2 c) && not (joins (first rest))
  | _ ↦ false
]

unfoldable pub likely_phi : Text → List Text
likely_phi text =
    let s = to_ascii_lowercase text in
    (if has_ssn s then phi_ssn ∷ [] else [])
    ++ (if keyword_then s (codes "mrn" ∷ codes "medical record number" ∷ [])
          (λ rest. leb 5 (digits_at rest))
        then phi_mrn ∷ []
        else [])
    ++ (if keyword_then s (codes "dob" ∷ codes "date of birth" ∷ []) looks_like_date
        then phi_dob ∷ []
        else [])

unfoldable pub scan_hits : Text → List Text
scan_hits text = secret_hit_names text ++ likely_phi text
