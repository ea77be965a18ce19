-- ===== src/Policies/Prefix/Shape.antt =====
-- The prefix of a project can stand in a URL.
use sebenza.Base.{
  reverse_onto, digits_from, ℕ, zero, suc, ◌+◌, ◌/◌, ◌%◌, ◌<◌, Text, codes, ◌≡◌, refl, Bool, true,
  false, not, ◌&&◌, ◌||◌, none, some, List, [], ◌∷◌, ◌++◌, arith, ◌==◌, nat_eq, text_eq,
  nat_beq_iff, leb, all, is_empty, is_ascii_alphabetic, is_ascii_alphanumeric, is_ascii_lowercase,
  is_ascii_digit, trim_matches, to_decimal, all-append, rev, drop_while, trim_end_matches,
}
use sebenza.Policies.Prefix.{
  slug_from, sanitize_project_prefix, or_sebenza, prefix_candidate, free_candidate, choose_prefix,
  derive_project_prefix, project_basename, reserved_project_prefixes,
}

-- The characters of a prefix, and those that `char::to_lowercase` leaves as they are.
abbrev pub is_prefix_char : ℕ → Bool
is_prefix_char c = is_ascii_lowercase c || is_ascii_digit c || c == b'-'

abbrev pub is_lowered : ℕ → Bool
is_lowered c = not (leb b'A' c && leb c b'Z')

slug_from-chars :
    (prev_dash : Bool) (s : Text)
    → all is_lowered s ≡ true
    → all is_prefix_char (slug_from prev_dash s) ≡ true
unfolding slug_from all is_ascii_alphanumeric is_ascii_alphabetic
slug_from-chars prev_dash [] h = refl
slug_from-chars prev_dash (ch ∷ s) h =
    ground (arith, h, slug_from-chars false s, slug_from-chars true s, nat_beq_iff b'-' b'-')

module _ (p : ℕ → Bool) where
  all-reverse_onto :
      (xs acc : Text) → all p xs ≡ true → all p acc ≡ true → all p (reverse_onto xs acc) ≡ true
  unfolding all
  all-reverse_onto [] acc h k = k
  all-reverse_onto (x ∷ xs) acc h k = ground (arith, h, k, all-reverse_onto xs (x ∷ acc))

  all-rev : (xs : Text) → all p xs ≡ true → all p (rev xs) ≡ true
  unfolding rev
  all-rev xs h = all-reverse_onto xs [] h (unfold all in refl)

  all-drop_while : (q : ℕ → Bool) (xs : Text) → all p xs ≡ true → all p (drop_while q xs) ≡ true
  unfolding all drop_while
  all-drop_while q [] h = refl
  all-drop_while q (x ∷ xs) h = ground (arith, h, all-drop_while q xs)

  all-trim_matches : (q : ℕ → Bool) (xs : Text) → all p xs ≡ true → all p (trim_matches q xs) ≡ true
  unfolding trim_matches trim_end_matches
  all-trim_matches q xs h =
      all-rev (drop_while q (rev (drop_while q xs))) (
        all-drop_while q (rev (drop_while q xs))
          (all-rev (drop_while q xs) (all-drop_while q xs h)))

prefix_char_of_digit : (d : ℕ) → d < 10 → is_prefix_char (b'0' + d) ≡ true
unfolding is_ascii_digit is_ascii_lowercase
prefix_char_of_digit d h = ground (arith, h)

all-digits_from : (fuel n : ℕ) → all is_prefix_char (digits_from fuel n) ≡ true
unfolding digits_from all
all-digits_from zero n = refl
all-digits_from (suc fuel) n = ground (
  arith,
  all-digits_from fuel (n / 10),
  prefix_char_of_digit (n % 10) (omega arith),
  all-append is_prefix_char (digits_from fuel (n / 10)) ((b'0' + n % 10) ∷ []),
)

all-join :
    (base s : Text)
    → all is_prefix_char base ≡ true
    → all is_prefix_char s ≡ true
    → all is_prefix_char (base ++ (codes "-" ++ s)) ≡ true
unfolding all
all-join base s h k =
    ground (arith, h, k, all-append is_prefix_char base (codes "-" ++ s), nat_beq_iff b'-' b'-')

all_sebenza : (s : Text) → all is_prefix_char s ≡ true → all is_prefix_char (or_sebenza s) ≡ true
unfolding all is_ascii_lowercase is_empty
all_sebenza [] h = refl
all_sebenza (c ∷ s) h = h

free_candidate-chars :
    (left : ℕ) (base : Text) (taken : List Text) (n : ℕ)
    → all is_prefix_char base ≡ true
    → elim (free_candidate left base taken n) [ none ↦ true | some c ↦ all is_prefix_char c ] ≡ true
unfolding free_candidate prefix_candidate to_decimal
free_candidate-chars zero base taken n h = refl
free_candidate-chars (suc left) base taken n h = ground (
  arith,
  free_candidate-chars left base taken (n + 1) h,
  all-join base (digits_from (suc n) n) h (all-digits_from (suc n) n),
)

-- The prefix of a new project consists of small ASCII letters, digits and dashes, whatever the
-- directory is called, when the change to lower case leaves no capital ASCII letter and the
-- random bytes are written in such characters.
derive_project_prefix-chars :
    (lower : Text → Text) (random project_dir : Text) (taken : List Text)
    → ((s : Text) → all is_lowered (lower s) ≡ true)
    → all is_prefix_char random ≡ true
    → all is_prefix_char (derive_project_prefix lower random project_dir taken) ≡ true
unfolding derive_project_prefix choose_prefix sanitize_project_prefix
derive_project_prefix-chars lower random project_dir taken lowered hex =
    let slug = slug_from false (lower (project_basename project_dir)) in
    let base = or_sebenza (trim_matches (λ c. c == b'-') slug) in
    let fine =
      all-trim_matches is_prefix_char (λ c. c == b'-') slug
        (slug_from-chars false (lower (project_basename project_dir))
          (lowered (project_basename project_dir))) in
    ground (
      arith,
      fine,
      all_sebenza (trim_matches (λ c. c == b'-') slug) fine,
      all-join base random,
      hex,
      free_candidate-chars 998 base (taken ++ reserved_project_prefixes) 2,
    )
