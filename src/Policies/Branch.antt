-- ===== src/Policies/Branch.antt =====
-- crates/common/src/domain/policies.rs: branch names. The Unicode lower case of a text is the parameter
-- `lower`.
pub mod Clean
use sebenza.Base.{
  ℕ, ◌-◌, Text, codes, Bool, true, false, not, ◌&&◌, ◌||◌, List, [], ◌∷◌, ◌++◌, ◌==◌, text_eq,
  text_beq, nat_eq, filter, contains, take, length, trim_matches, is_whitespace, is_empty,
  ends_with, ltb, if◌then◌else◌,
}

-- Runs of whitespace become one `-`; the flag says that the last character was whitespace.
unfoldable pub whitespace_to_dash_from : Bool → Text → Text
whitespace_to_dash_from in_ws [] = []
whitespace_to_dash_from in_ws (c ∷ s) =
    let rest = whitespace_to_dash_from (is_whitespace c) s in
    if is_whitespace c then (if in_ws then rest else b'-' ∷ rest) else c ∷ rest

abbrev pub whitespace_to_dash : Text → Text
whitespace_to_dash s = whitespace_to_dash_from false s

-- Runs of the target become one; the flag says that the last character was the target.
unfoldable pub collapse_from : ℕ → Bool → Text → Text
collapse_from target prev [] = []
collapse_from target prev (c ∷ s) =
    let rest = collapse_from target (c == target) s in
    if c == target then (if prev then rest else c ∷ rest) else c ∷ rest

abbrev pub collapse_char : Text → ℕ → Text
collapse_char s target = collapse_from target false s

-- The characters that `retain` drops.
unfoldable pub is_refused : ℕ → Bool
is_refused c = contains (codes "~^:?*[]\\") c

-- `s.replace("@{", "")`
unfoldable pub without_at_brace : Text → Text
without_at_brace [] = []
without_at_brace (c ∷ []) = c ∷ []
without_at_brace (c ∷ d ∷ s) =
    let behind = without_at_brace s in
    let rest = without_at_brace (d ∷ s) in if c == b'@' && d == b'{' then behind else c ∷ rest

unfoldable pub is_edge : ℕ → Bool
is_edge c = c == b'.' || c == b'-' || c == b'/'

-- `truncate` by the five bytes of ".lock": the text is in lower case already, so that what ends in
-- ".lock" in lower case ends in those five characters.
unfoldable pub strip_lock : (Text → Text) → Text → Text
strip_lock lower s = if ends_with (codes ".lock") (lower s) then take (length s - 5) s else s

module _ (lower : Text → Text) where
  unfoldable pub sanitize_branch_name : Text → Text
  unfolding is_edge
  sanitize_branch_name raw =
      let dashed = whitespace_to_dash (lower raw) in
      let kept = without_at_brace (filter (λ c. not (is_refused c)) dashed) in
      let dots = collapse_char kept b'.' in
      let slashes = collapse_char dots b'/' in
      let dashes = collapse_char slashes b'-' in strip_lock lower (trim_matches is_edge dashes)

  unfoldable pub is_valid_branch_name : Text → Bool
  is_valid_branch_name raw = not (is_empty raw) && sanitize_branch_name raw == raw

-- `<` on texts, by code points, which is their order by bytes too
unfoldable pub text_ltb : Text → Text → Bool
text_ltb [] [] = false
text_ltb [] (d ∷ t) = true
text_ltb (c ∷ s) [] = false
text_ltb (c ∷ s) (d ∷ t) =
    let rest = text_ltb s t in if ltb c d then true else if c == d then rest else false

-- A `BTreeSet` is the list of its members in order.
unfoldable pub insert_sorted : Text → List Text → List Text
insert_sorted name [] = name ∷ []
insert_sorted name (other ∷ set) =
    let rest = insert_sorted name set in
    if text_ltb name other
    then name ∷ other ∷ set
    else if name == other
    then other ∷ set
    else other ∷ rest

unfoldable pub extend_sorted : List Text → List Text → List Text
extend_sorted set [] = set
extend_sorted set (name ∷ names) = extend_sorted (insert_sorted name set) names

module _ (lower : Text → Text) where
  unfoldable pub available_branch_names : List Text → List Text → List Text → Bool → List Text
  available_branch_names local remote checked_out include_remote =
      let names = extend_sorted [] (filter (is_valid_branch_name lower) local) in
      let all_names =
        if include_remote
        then extend_sorted names (filter (is_valid_branch_name lower) remote)
        else names in
      filter (λ b. not (contains checked_out b)) all_names

  unfoldable pub base_branch_names : List Text → List Text
  base_branch_names local = extend_sorted [] (filter (is_valid_branch_name lower) local)
