-- ===== src/Policies/Prefix/Free.antt =====
-- The prefix that a project gets is nobody else's.
use sebenza.Base.{
  count_from-le, length-filter_map, length-append, contains-append, from_decimal_onto-to_decimal,
  strip_prefix-append, count_from-contains, count_from, from_decimal_onto, to_decimal, strip_prefix,
  ℕ, zero, suc, ◌+◌, ◌<◌, Text, codes, ◌≡◌, sym, ap, ◌∙◌, true, false, Option, none, some, List, [],
  ◌∷◌, ◌++◌, append_assoc, arith, nat_eq, text_eq, text_beq_iff, nat_beq_iff, filter_map, contains,
  length,
}
use sebenza.Policies.Prefix.{
  prefix_candidate, free_candidate, choose_prefix, reserved_project_prefixes, derive_project_prefix,
  or_sebenza, project_basename, sanitize_project_prefix,
}

-- The number of a candidate, read off a name that is taken.
abbrev number_of : Option Text → Option ℕ
number_of none = none
number_of (some digits) = some (from_decimal_onto 0 digits)

abbrev candidate_number : Text → Text → Option ℕ
candidate_number base name = number_of (strip_prefix (base ++ codes "-") name)

candidate_number-prefix_candidate :
    (base : Text) (n : ℕ) → candidate_number base (prefix_candidate base n) ≡ some n
unfolding prefix_candidate
candidate_number-prefix_candidate base n =
    ap (candidate_number base) (sym (append_assoc base (codes "-") (to_decimal n)))
    ∙ ap (number_of) (strip_prefix-append (base ++ codes "-") (to_decimal n))
    ∙ ap some (from_decimal_onto-to_decimal n)

contains-candidate_number :
    (base : Text) (taken : List Text) (n : ℕ)
    → contains taken (prefix_candidate base n) ≡ true
    → contains (filter_map (candidate_number base) taken) n ≡ true
unfolding contains filter_map
contains-candidate_number base [] n h = cc
contains-candidate_number base (name ∷ taken) n h = ground (
  arith,
  h,
  text_beq_iff name (prefix_candidate base n),
  candidate_number-prefix_candidate base n,
  contains-candidate_number base taken n,
  nat_beq_iff n n,
)

free_candidate-count :
    (left : ℕ) (base : Text) (taken : List Text) (n : ℕ)
    → count_from n (filter_map (candidate_number base) taken) < left
    → elim (free_candidate left base taken n) [ none ↦ true | some c ↦ contains taken c ] ≡ false
unfolding free_candidate
free_candidate-count zero base taken n h = absurd (omega arith)
free_candidate-count (suc left) base taken n h = ground (
  arith,
  h,
  contains-candidate_number base taken n,
  count_from-contains n (filter_map (candidate_number base) taken),
  free_candidate-count left base taken (n + 1),
)

choose_prefix-free :
    (random : Text) (taken : List Text) (base : Text)
    → length taken < 998
    → contains taken (choose_prefix random taken base) ≡ false
unfolding choose_prefix
choose_prefix-free random taken base few = ground (
  arith,
  few,
  count_from-le 2 (filter_map (candidate_number base) taken),
  length-filter_map (candidate_number base) taken,
  free_candidate-count 998 base taken 2,
)

-- The prefix of a new project is none of those that are taken and none of the reserved segments,
-- whatever the random bytes are, while fewer than 993 prefixes are taken.
pub derive_project_prefix-free :
    (lower : Text → Text) (random project_dir : Text) (taken : List Text)
    → length taken < 993
    → let prefix = derive_project_prefix lower random project_dir taken in
      (contains taken prefix ≡ false) × (contains reserved_project_prefixes prefix ≡ false)
unfolding derive_project_prefix
derive_project_prefix-free lower random project_dir taken few = ground (
  arith,
  few,
  length-append taken reserved_project_prefixes,
  choose_prefix-free random (taken ++ reserved_project_prefixes)
      (or_sebenza (sanitize_project_prefix lower (project_basename project_dir))),
  contains-append taken reserved_project_prefixes
      (derive_project_prefix lower random project_dir taken),
)
