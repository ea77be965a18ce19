-- ===== src/ContentScan/Keys.antt =====
-- The search for a key, against one that looks at every position.
use sebenza.Base.{
  List, ℕ, zero, suc, ◌-◌, ◌≤◌, ◌<◌, Text, ◌≡◌, refl, sym, subst, inl, inr, Bool, true, false, not,
  ◌&&◌, ◌||◌, Option, none, some, [], ◌∷◌, ◌++◌, arith, nat_eq, text_eq, nat_beq_iff, leb, is_some,
  length, is_empty, Option-cases, All, strip_prefix, is_ascii_alphanumeric,
}
use sebenza.ContentScan.{
  looks_from, looks_like_key, is_boundary, is_secret_char, count_while, secret_patterns, Pattern,
}

-- A key at this position: the prefix, at a word boundary, with enough behind it.
unfoldable pub key_here : Text → ℕ → Option ℕ → Text → Bool
key_here prefix min_tail previous s = elim (strip_prefix prefix s) [
  | none ↦ false
  | some tail ↦ is_boundary previous && leb min_tail (count_while is_secret_char tail)
]

-- A key at any position.
unfoldable pub key_anywhere : Text → ℕ → Option ℕ → Text → Bool
key_anywhere prefix min_tail previous [] = false
key_anywhere prefix min_tail previous (c ∷ s) =
    key_here prefix min_tail previous (c ∷ s) || key_anywhere prefix min_tail (some c) s

-- No key at the next positions.
unfoldable pub clear : Text → ℕ → ℕ → Option ℕ → Text → Bool
clear prefix min_tail zero previous s = true
clear prefix min_tail (suc k) previous [] = true
clear prefix min_tail (suc k) previous (c ∷ s) =
    not (key_here prefix min_tail previous (c ∷ s)) && clear prefix min_tail k (some c) s

-- No end of a prefix, behind a character that leaves a boundary, is where the prefix could start again.
unfoldable pub cannot_restart : Text → Text → Bool
cannot_restart prefix [] = true
cannot_restart prefix (a ∷ q) =
    (is_ascii_alphanumeric a || is_empty q || not (is_some (strip_prefix q prefix)))
    && cannot_restart prefix q

strip_prefix-shorter :
    (q prefix rest : Text)
    → length q ≤ length prefix
    → strip_prefix q prefix ≡ none
    → strip_prefix prefix (q ++ rest) ≡ none
unfolding strip_prefix
strip_prefix-shorter [] prefix rest short apart = absurd (ground (arith, apart))
strip_prefix-shorter (a ∷ q) [] rest short apart = absurd (omega (arith, short))
strip_prefix-shorter (a ∷ q) (p ∷ prefix) rest short apart =
    ground
      (arith, short, apart, strip_prefix-shorter q prefix rest, nat_beq_iff a p, nat_beq_iff p a)

-- Inside a match of a prefix that cannot restart there is no other key.
clear-inside :
    (prefix : Text) (min_tail a : ℕ) (q rest : Text)
    → cannot_restart prefix (a ∷ q) ≡ true
    → length q ≤ length prefix
    → clear prefix min_tail (length q) (some a) (q ++ rest) ≡ true
unfolding cannot_restart clear key_here is_boundary is_empty
clear-inside prefix min_tail a [] rest safe short = refl
clear-inside prefix min_tail a (b ∷ q) rest safe short = ground (
  arith,
  safe,
  short,
  clear-inside prefix min_tail b q rest,
  strip_prefix-shorter (b ∷ q) prefix rest,
)

strip_prefix_split : (prefix s tail : Text) → strip_prefix prefix s ≡ some tail → s ≡ prefix ++ tail
unfolding strip_prefix
strip_prefix_split [] s tail found = ground (arith, found)
strip_prefix_split (p ∷ prefix) [] tail found = absurd (ground (arith, found))
strip_prefix_split (p ∷ prefix) (c ∷ s) tail found =
    ground (arith, found, strip_prefix_split prefix s tail, nat_beq_iff p c)

clear-behind :
    (prefix : Text) (min_tail c : ℕ) (s tail : Text)
    → cannot_restart prefix prefix ≡ true
    → strip_prefix prefix (c ∷ s) ≡ some tail
    → 0 < length prefix
    → clear prefix min_tail (length prefix - 1) (some c) s ≡ true
unfolding strip_prefix
clear-behind [] min_tail c s tail safe found some_prefix = absurd (omega (arith, some_prefix))
clear-behind (p ∷ prefix) min_tail c s tail safe found some_prefix =
    let same : p ≡ c = ground (arith, found, nat_beq_iff p c) in
    let split : s ≡ prefix ++ tail =
      strip_prefix_split prefix s tail (ground (arith, found, nat_beq_iff p c)) in
    let less : length prefix ≡ suc (length prefix) - 1 = omega arith in
    subst (λ n. clear (p ∷ prefix) min_tail n (some c) s ≡ true) less
      (subst (λ a. clear (p ∷ prefix) min_tail (length prefix) (some a) s ≡ true) same
        (subst (λ t. clear (p ∷ prefix) min_tail (length prefix) (some p) t ≡ true) (sym split)
          (clear-inside (p ∷ prefix) min_tail p prefix tail safe (omega arith))))

looks_from_everywhere :
    (prefix : Text) (min_tail : ℕ) (previous : Option ℕ) (skip : ℕ) (s : Text)
    → cannot_restart prefix prefix ≡ true
    → 0 < length prefix
    → clear prefix min_tail skip previous s ≡ true
    → looks_from prefix min_tail previous skip s ≡ key_anywhere prefix min_tail previous s
unfolding looks_from key_anywhere clear key_here
looks_from_everywhere prefix min_tail previous skip [] safe more free = ground arith
looks_from_everywhere prefix min_tail previous (suc skip) (c ∷ s) safe more free =
    ground (arith, free, looks_from_everywhere prefix min_tail (some c) skip s safe more)
looks_from_everywhere prefix min_tail previous zero (c ∷ s) safe more free =
    elim (Option-cases (strip_prefix prefix (c ∷ s))) [
      | inl other ↦
          rw (looks_from, key_anywhere, key_here, other)
            (looks_from_everywhere prefix min_tail (some c) zero s safe more refl)
      | inr (tail, found) ↦
          rw (looks_from, key_anywhere, key_here, found)
            (ground (
              arith,
              looks_from_everywhere prefix min_tail (some c) (length prefix - 1) s safe more
                  (clear-behind prefix min_tail c s tail safe found more),
            ))
    ]

-- A pattern whose prefix the search does not have to start over inside of.
abbrev IsPlainPattern : Pattern → Type 0
IsPlainPattern p = (cannot_restart p.1 p.1 ≡ true) × (0 < length p.1)

secret_patterns-IsPlainPattern : All IsPlainPattern secret_patterns
unfolding cannot_restart strip_prefix is_ascii_alphanumeric is_empty
secret_patterns-IsPlainPattern = (
  (refl, omega arith),
  (
    (refl, omega arith),
    ((refl, omega arith), ((refl, omega arith), ((refl, omega arith), ((refl, omega arith), tt)))),
  ),
)

IsPlainPattern-everywhere :
    (text : Text) (patterns : List Pattern)
    → All IsPlainPattern patterns
    → All (λ p. looks_like_key text p.1 p.2 ≡ key_anywhere p.1 p.2 none text) patterns
unfolding looks_like_key clear
IsPlainPattern-everywhere text [] plain = tt
IsPlainPattern-everywhere text (p ∷ patterns) ((safe, more), plain) = (
  looks_from_everywhere p.1 p.2 none zero text safe more refl,
  IsPlainPattern-everywhere text patterns plain,
)

-- For each pattern that the scan uses: the search, which goes on behind every match that it refused, finds a
-- key in a text exactly where one that looks at every position does.
pub looks_like_key-everywhere :
    (text : Text)
    → All (λ p. looks_like_key text p.1 p.2 ≡ key_anywhere p.1 p.2 none text) secret_patterns
looks_like_key-everywhere text =
    IsPlainPattern-everywhere text secret_patterns secret_patterns-IsPlainPattern
