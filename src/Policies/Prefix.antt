-- ===== src/Policies/Prefix.antt =====
-- The URL prefix of a project, of crates/common/src/domain/policies.rs. `str::to_lowercase` is the
-- parameter `lower`, and the four random bytes in hexadecimal are the parameter `random`.
pub mod Free
pub mod Shape
use sebenza.Base.{
  ℕ, zero, suc, ◌+◌, ◌-◌, ◌*◌, ◌/◌, ◌%◌, ◌^◌, ◌≤◌, ◌<◌, max, Text, codes, ◌≡◌, ◌≢◌, refl, sym, ap,
  ◌∙◌, subst, ◌↔◌, ◌⊎◌, inl, inr, Bool, true, false, not, ◌&&◌, ◌||◌, Option, none, some, List, [],
  ◌∷◌, ◌++◌, map, append-nil, append_assoc, arith, Eq, ◌==◌, nat_eq, text_eq, text_beq,
  text_beq_iff, text_beq_refl, nat_beq_iff, ltb, leb, if◌then◌else◌, unwrap_or, is_some, or_else,
  is_some_and, keep_if, all, any, find, filter, filter_map, find_map, contains, length, take,
  lookup, insert, remove, is_empty, is_blank, trim, Bool-cases, Option-cases, All,
  is_ascii_alphanumeric, trim_matches, trim_end_matches, after_last, to_decimal,
  is_ascii_alphanumeric, trim_end_matches, to_decimal, after_last, trim_matches,
}

abbrev pub reserved_project_prefixes : List Text
reserved_project_prefixes =
    codes "api" ∷ codes "ws" ∷ codes "assets" ∷ codes "registry" ∷ codes "inbox" ∷ []

-- The loop over the characters, with `prev_dash`.
unfoldable pub slug_from : Bool → Text → Text
slug_from prev_dash [] = []
slug_from prev_dash (ch ∷ s) =
    let after_char = slug_from false s in
    let after_dash = slug_from true s in
    if is_ascii_alphanumeric ch
    then ch ∷ after_char
    else if prev_dash
    then after_dash
    else b'-' ∷ after_dash

unfoldable pub sanitize_project_prefix : (Text → Text) → Text → Text
unfolding slug_from
sanitize_project_prefix lower raw = trim_matches (λ c. c == b'-') (slug_from false (lower raw))

unfoldable pub project_basename : Text → Text
project_basename project_dir =
    after_last (λ c. c == b'/') (trim_end_matches (λ c. c == b'/') project_dir)

abbrev pub or_sebenza : Text → Text
or_sebenza s = if is_empty s then codes "sebenza" else s

unfoldable pub prefix_candidate : Text → ℕ → Text
prefix_candidate base n = base ++ (codes "-" ++ to_decimal n)

-- The loop over `n`, which goes through as many numbers as the first argument says.
unfoldable pub free_candidate : ℕ → Text → List Text → ℕ → Option Text
free_candidate zero base taken n = none
free_candidate (suc left) base taken n =
    let later = free_candidate left base taken (n + 1) in
    if contains taken (prefix_candidate base n) then later else some (prefix_candidate base n)

unfoldable pub choose_prefix : Text → List Text → Text → Text
choose_prefix random taken base =
    if not (contains taken base)
    then base
    else unwrap_or (free_candidate 998 base taken 2) (base ++ (codes "-" ++ random))

unfoldable pub derive_project_prefix : (Text → Text) → Text → Text → List Text → Text
derive_project_prefix lower random project_dir taken_prefixes =
    choose_prefix random (taken_prefixes ++ reserved_project_prefixes)
      (or_sebenza (sanitize_project_prefix lower (project_basename project_dir)))
