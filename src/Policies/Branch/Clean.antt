-- ===== src/Policies/Branch/Clean.antt =====
-- The form of a sanitized branch name.
use sebenza.Base.{
  ℕ, zero, suc, ◌-◌, Text, codes, ◌≡◌, refl, sym, ap, ◌∙◌, subst, Bool, true, false, not, ◌&&◌, [],
  ◌∷◌, ◌++◌, ◌==◌, nat_eq, text_eq, all, filter, take, length, trim_matches, trim_end_matches,
  drop_while, rev, is_whitespace, ends_with, rev-rev, rev-append, drop_while-split, Bool-cases, inl,
  inr, append-nil, arith, if◌then◌else◌,
}
use sebenza.Policies.Branch.{
  whitespace_to_dash_from, collapse_from, is_refused, without_at_brace, is_edge, strip_lock,
  sanitize_branch_name,
}

-- A character that a branch name may hold.
abbrev pub is_kept : ℕ → Bool
is_kept c = not (is_whitespace c) && not (is_refused c)

-- No two of `target` in a row; the flag says that the last character was one.
unfoldable pub no_double : ℕ → Bool → Text → Bool
no_double target prev [] = true
no_double target prev (c ∷ s) =
    let rest = no_double target (c == target) s in if c == target && prev then false else rest

unfoldable pub starts_inside : Text → Bool
unfolding is_edge
starts_inside [] = true
starts_inside (c ∷ s) = not (is_edge c)

-- A part of the text at its front.
data IsFront : Text → Text → Type 0 where
  nil : (s : Text) → IsFront [] s
  cons : (c : ℕ) (p s : Text) → IsFront p s → IsFront (c ∷ p) (c ∷ s)

append-IsFront : (p s : Text) → IsFront p (p ++ s)
append-IsFront [] s = nil s
append-IsFront (c ∷ p) s = cons c p (p ++ s) (append-IsFront p s)

take-IsFront : (n : ℕ) (s : Text) → IsFront (take n s) s
take-IsFront zero s = nil s
take-IsFront (suc n) [] = nil []
take-IsFront (suc n) (c ∷ s) = cons c (take n s) s (take-IsFront n s)

IsFront-all : (p : ℕ → Bool) {f s : Text} → IsFront f s → all p s ≡ true → all p f ≡ true
unfolding all
IsFront-all p (nil s) h = refl
IsFront-all p (cons c f s i) h = ground (arith, h, IsFront-all p i)

IsFront-no_double :
    (t : ℕ) (prev : Bool) {f s : Text}
    → IsFront f s
    → no_double t prev s ≡ true
    → no_double t prev f ≡ true
unfolding no_double
IsFront-no_double t prev (nil s) h = refl
IsFront-no_double t prev (cons c f s i) h = ground (arith, h, IsFront-no_double t (c == t) i)

IsFront-starts_inside : {f s : Text} → IsFront f s → starts_inside s ≡ true → starts_inside f ≡ true
unfolding starts_inside
IsFront-starts_inside (nil s) h = refl
IsFront-starts_inside (cons c f s i) h = h

all-filter : (p q : ℕ → Bool) (s : Text) → all p s ≡ true → all p (filter q s) ≡ true
unfolding all filter
all-filter p q [] h = refl
all-filter p q (c ∷ s) h = ground (arith, all-filter p q s)

all-filter_self :
    (p q : ℕ → Bool) (s : Text) → all p s ≡ true → all (λ c. p c && q c) (filter q s) ≡ true
unfolding all filter
all-filter_self p q [] h = refl
all-filter_self p q (c ∷ s) h = ground (arith, all-filter_self p q s)

all-without_at_brace :
    (p : ℕ → Bool) (s : Text) → all p s ≡ true → all p (without_at_brace s) ≡ true
unfolding all without_at_brace
all-without_at_brace p [] h = refl
all-without_at_brace p (c ∷ []) h = h
all-without_at_brace p (c ∷ d ∷ s) h =
    ground (arith, h, all-without_at_brace p s, all-without_at_brace p (d ∷ s))

all-collapse_from :
    (p : ℕ → Bool) (t : ℕ) (prev : Bool) (s : Text)
    → all p s ≡ true
    → all p (collapse_from t prev s) ≡ true
unfolding all collapse_from
all-collapse_from p t prev [] h = refl
all-collapse_from p t prev (c ∷ s) h = ground (arith, h, all-collapse_from p t (c == t) s)

is_whitespace-dash : is_whitespace b'-' ≡ false
unfolding is_whitespace
is_whitespace-dash = refl

all-whitespace_to_dash :
    (in_ws : Bool) (s : Text)
    → all (λ c. not (is_whitespace c)) (whitespace_to_dash_from in_ws s) ≡ true
unfolding all whitespace_to_dash_from
all-whitespace_to_dash in_ws [] = refl
all-whitespace_to_dash in_ws (c ∷ s) =
    ground (arith, all-whitespace_to_dash (is_whitespace c) s, is_whitespace-dash)

no_double-collapse_from :
    (t : ℕ) (prev : Bool) (s : Text) → no_double t prev (collapse_from t prev s) ≡ true
unfolding no_double collapse_from
no_double-collapse_from t prev [] = refl
no_double-collapse_from t prev (c ∷ s) = ground (arith, no_double-collapse_from t (c == t) s)

-- Runs of one character that shrink bring no two of another together.
no_double-collapse_other :
    (a t : ℕ) (p q : Bool) (s : Text)
    → (a == t) ≡ false
    → (p && q) ≡ false
    → no_double a p s ≡ true
    → no_double a p (collapse_from t q s) ≡ true
unfolding no_double collapse_from
no_double-collapse_other a t p q [] other apart h = refl
no_double-collapse_other a t p q (c ∷ s) other apart h =
    ground (arith, h, other, apart, no_double-collapse_other a t (c == a) (c == t) s other)

trim_end_matches-IsFront : (p : ℕ → Bool) (s : Text) → IsFront (trim_end_matches p s) s
unfolding trim_end_matches
trim_end_matches-IsFront p s =
    let (front, e) = drop_while-split p (rev s) in
    let whole : s ≡ rev (drop_while p (rev s)) ++ rev front =
      sym (rev-rev s) ∙ ap rev e ∙ rev-append front (drop_while p (rev s)) in
    subst (IsFront (rev (drop_while p (rev s)))) (sym whole)
      (append-IsFront (rev (drop_while p (rev s))) (rev front))

all-drop_while : (p q : ℕ → Bool) (s : Text) → all p s ≡ true → all p (drop_while q s) ≡ true
unfolding all drop_while
all-drop_while p q [] h = refl
all-drop_while p q (c ∷ s) h = ground (arith, h, all-drop_while p q s)

no_double_weaken :
    (t : ℕ) (prev : Bool) (s : Text) → no_double t prev s ≡ true → no_double t false s ≡ true
unfolding no_double
no_double_weaken t prev [] h = refl
no_double_weaken t prev (c ∷ s) h = ground (arith, h)

no_double-drop_while :
    (t : ℕ) (q : ℕ → Bool) (s : Text)
    → no_double t false s ≡ true
    → no_double t false (drop_while q s) ≡ true
unfolding no_double drop_while
no_double-drop_while t q [] h = refl
no_double-drop_while t q (c ∷ s) h =
    ground (arith, h, no_double-drop_while t q s, no_double_weaken t (c == t) s)

starts_inside-drop_while : (s : Text) → starts_inside (drop_while is_edge s) ≡ true
unfolding starts_inside drop_while
starts_inside-drop_while [] = refl
starts_inside-drop_while (c ∷ s) = ground (arith, starts_inside-drop_while s)

strip_lock-IsFront : (lower : Text → Text) (s : Text) → IsFront (strip_lock lower s) s
unfolding strip_lock
strip_lock-IsFront lower s = elim (Bool-cases (ends_with (codes ".lock") (lower s))) [
  | inl locked ↦ rw locked (take-IsFront (length s - 5) s)
  | inr free ↦ rw free (subst (IsFront s) (append-nil s) (append-IsFront s []))
]

-- A sanitized branch name, as text: no whitespace and none of ~^:?*[]\, no two dots, slashes or dashes
-- in a row, and none of these three at its start.
pub record IsClean (s : Text) : Type 0 where
  pub kept : all is_kept s ≡ true
  pub dots : no_double b'.' false s ≡ true
  pub slashes : no_double b'/' false s ≡ true
  pub dashes : no_double b'-' false s ≡ true
  pub starts : starts_inside s ≡ true

IsFront-IsClean : {f s : Text} → IsFront f s → IsClean s → IsClean f
IsFront-IsClean i c = record {
  kept = IsFront-all is_kept i c.kept;
  dots = IsFront-no_double b'.' false i c.dots;
  slashes = IsFront-no_double b'/' false i c.slashes;
  dashes = IsFront-no_double b'-' false i c.dashes;
  starts = IsFront-starts_inside i c.starts;
}

collapsed : Text → Text
collapsed s = collapse_from b'-' false (collapse_from b'/' false (collapse_from b'.' false s))

dropped-IsClean : (s : Text) → all is_kept s ≡ true → IsClean (drop_while is_edge (collapsed s))
unfolding collapsed
dropped-IsClean s h =
    let one = collapse_from b'.' false s in
    let two = collapse_from b'/' false one in
    let dot = no_double-collapse_from b'.' false s in
    let slash = no_double-collapse_from b'/' false one in
    let dots' = no_double-collapse_other b'.' b'/' false false one refl refl dot in
    record {
      kept = all-drop_while is_kept is_edge _ (
          all-collapse_from is_kept b'-' false two
            (all-collapse_from is_kept b'/' false one (all-collapse_from is_kept b'.' false s h)));
      dots =
          no_double-drop_while b'.' is_edge _
            (no_double-collapse_other b'.' b'-' false false two refl refl dots');
      slashes =
          no_double-drop_while b'/' is_edge _
            (no_double-collapse_other b'/' b'-' false false two refl refl slash);
      dashes = no_double-drop_while b'-' is_edge _ (no_double-collapse_from b'-' false two);
      starts = starts_inside-drop_while _;
    }

-- Whatever the text, and whatever lower case is taken to be, its sanitized form is `IsClean`.
pub sanitize_branch_name-IsClean :
    (lower : Text → Text) (raw : Text) → IsClean (sanitize_branch_name lower raw)
unfolding sanitize_branch_name trim_matches collapsed
sanitize_branch_name-IsClean lower raw =
    let dashed = whitespace_to_dash_from false (lower raw) in
    let held = filter (λ c. not (is_refused c)) dashed in
    let kept = all-without_at_brace is_kept held (
      all-filter_self (λ c. not (is_whitespace c)) (λ c. not (is_refused c)) dashed
        (all-whitespace_to_dash false (lower raw))) in
    IsFront-IsClean (strip_lock-IsFront lower _) (
      IsFront-IsClean (trim_end_matches-IsFront is_edge _)
        (dropped-IsClean (without_at_brace held) kept))
