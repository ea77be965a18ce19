-- ===== src/ContentScan/Names.antt =====
-- What a scan answers with.
use sebenza.Base.{
  Text, codes, ◌≡◌, refl, sym, ap, ◌∙◌, Bool, true, not, ◌&&◌, List, [], ◌∷◌, ◌++◌, map, arith,
  nat_eq, text_eq, text_beq, leb, if◌then◌else◌, filter, contains, to_ascii_lowercase,
}
use sebenza.ContentScan.{
  scan_hits, secret_hit_names, likely_phi, secret_patterns, looks_like_key, phi_ssn, phi_mrn,
  phi_dob, has_ssn, keyword_then, looks_like_date, digits_at, Pattern,
}

-- The names that a scan can give, in the order in which it gives them.
abbrev pub known_names : List Text
known_names = map (λ p. p.0) secret_patterns ++ phi_ssn ∷ phi_mrn ∷ phi_dob ∷ []

-- What a list of answers keeps of a list of names.
unfoldable pub choose : List Bool → List Text → List Text
choose [] names = []
choose (keep ∷ more) [] = []
choose (keep ∷ more) (name ∷ names) =
    let rest = choose more names in if keep then name ∷ rest else rest

unfoldable pub are_distinct : List Text → Bool
are_distinct [] = true
are_distinct (name ∷ names) = not (contains names name) && are_distinct names

contains-choose :
    (answers : List Bool) (names : List Text) (name : Text)
    → contains (choose answers names) name ≡ true
    → contains names name ≡ true
unfolding choose contains
contains-choose [] names name held = absurd (ground (arith, held))
contains-choose (keep ∷ more) [] name held = absurd (ground (arith, held))
contains-choose (keep ∷ more) (first ∷ names) name held =
    ground (arith, held, contains-choose more names name)

are_distinct-choose :
    (answers : List Bool) (names : List Text)
    → are_distinct names ≡ true
    → are_distinct (choose answers names) ≡ true
unfolding choose are_distinct
are_distinct-choose [] names apart = refl
are_distinct-choose (keep ∷ more) [] apart = refl
are_distinct-choose (keep ∷ more) (first ∷ names) apart =
    ground (arith, apart, are_distinct-choose more names, contains-choose more names first)

-- The nine questions that a scan asks of a text.
unfoldable pub answers_of : Text → List Bool
answers_of text =
    let s = to_ascii_lowercase text in
    map (λ p. looks_like_key text p.1 p.2) secret_patterns
    ++ has_ssn s
      ∷ keyword_then s (codes "mrn" ∷ codes "medical record number" ∷ [])
          (λ rest. leb 5 (digits_at rest))
      ∷ keyword_then s (codes "dob" ∷ codes "date of birth" ∷ []) looks_like_date
      ∷ []

filter-choose :
    (test : Pattern → Bool) (patterns : List Pattern) (answers : List Bool) (names : List Text)
    → choose (map test patterns ++ answers) (map (λ p. p.0) patterns ++ names)
      ≡ map (λ p. p.0) (filter test patterns) ++ choose answers names
unfolding choose filter
filter-choose test [] answers names = refl
filter-choose test (p ∷ patterns) answers names =
    ground (arith, filter-choose test patterns answers names)

choose_three :
    (a b c : Bool) (x y z : Text)
    → (if a then x ∷ [] else []) ++ (if b then y ∷ [] else []) ++ (if c then z ∷ [] else [])
      ≡ choose (a ∷ b ∷ c ∷ []) (x ∷ y ∷ z ∷ [])
unfolding choose
choose_three a b c x y z = ground arith

scan_hits-choose : (text : Text) → scan_hits text ≡ choose (answers_of text) known_names
unfolding scan_hits secret_hit_names likely_phi answers_of
scan_hits-choose text =
    let s = to_ascii_lowercase text in
    let ssn = has_ssn s in
    let mrn =
      keyword_then s (codes "mrn" ∷ codes "medical record number" ∷ [])
        (λ rest. leb 5 (digits_at rest)) in
    let dob = keyword_then s (codes "dob" ∷ codes "date of birth" ∷ []) looks_like_date in
    ap (λ phi. secret_hit_names text ++ phi) (choose_three ssn mrn dob phi_ssn phi_mrn phi_dob)
    ∙ sym (
        filter-choose (λ p. looks_like_key text p.1 p.2) secret_patterns (ssn ∷ mrn ∷ dob ∷ [])
          (phi_ssn ∷ phi_mrn ∷ phi_dob ∷ []))

known_names_distinct : are_distinct known_names ≡ true
unfolding are_distinct contains text_beq
known_names_distinct = refl

-- A scan of any text answers with a choice of nine fixed names, in a fixed order and none of them twice: what
-- it says of the text is nine answers, and never a part of the text.
scan_hits-names :
    (text : Text)
    → (scan_hits text ≡ choose (answers_of text) known_names)
      × (are_distinct (scan_hits text) ≡ true)
      × ((name : Text) → contains (scan_hits text) name ≡ true → contains known_names name ≡ true)
scan_hits-names text =
    let same = scan_hits-choose text in
    (
      same,
      ap are_distinct same ∙ are_distinct-choose (answers_of text) known_names known_names_distinct,
      λ name held.
          contains-choose (answers_of text) known_names name
            (ap (λ names. contains names name) (sym same) ∙ held),
    )
