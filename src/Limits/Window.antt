-- ===== src/Limits/Window.antt =====
-- The queue of recent hits against the whole history: the limiter counts exactly the granted hits
-- that are younger than the window, whatever it has thrown away.
use mathlib.Core.Path.{ap₂}
use sebenza.Base.{
  inr, inl, Bool-cases, ℕ, ◌≤◌, Text, ◌≡◌, refl, sym, ap, ◌∙◌, Bool, true, false, not, List, [],
  ◌∷◌, ◌++◌, length, filter, filter-append, drop_while, lookup, insert, lookup-insert, unwrap_or,
  leb, ltb, ◌==◌, text_eq, if◌then◌else◌, arith, All,
}
use sebenza.Limits.{RateLimit, Hits, is_old, evict, hit, allow_at}

-- The reference: all granted hits are kept, and the young ones counted.
abbrev pub young : ℕ → ℕ → ℕ → Bool
young window now at = not (is_old window now at)

unfoldable pub reference_hit : RateLimit → ℕ → List ℕ → Bool × List ℕ
reference_hit limit now granted =
    if ltb (length (filter (young limit.window now) granted)) limit.max
    then (true, granted ++ now ∷ [])
    else (false, granted)

-- A limiter with many callers, over a function that serves one of them.
abbrev pub serve_with : (ℕ → List ℕ → Bool × List ℕ) → Text → ℕ → Hits → Bool × Hits
serve_with step key now hits =
    let (allowed, recent) = step now (unwrap_or (lookup key hits) []) in
    (allowed, insert key recent hits)

unfoldable pub reference_allow_at : RateLimit → Text → ℕ → Hits → Bool × Hits
reference_allow_at limit = serve_with (reference_hit limit)

-- The answers to a row of calls, each with its caller and its time.
unfoldable pub answers : (Text → ℕ → Hits → Bool × Hits) → Hits → List (Text × ℕ) → List Bool
answers allow hits [] = []
answers allow hits ((key, now) ∷ calls) =
    (allow key now hits).0 ∷ answers allow (allow key now hits).1 calls

-- Times that never go back, from `t` on.
abbrev pub IsAscending : ℕ → List (Text × ℕ) → Type 0
IsAscending t [] = Unit {0}
IsAscending t ((key, now) ∷ calls) = (t ≤ now) × IsAscending now calls

-- Oldest first, from `t` on.
abbrev Sorted : ℕ → List ℕ → Type 0
Sorted t [] = Unit {0}
Sorted t (x ∷ xs) = (t ≤ x) × Sorted x xs

Sorted-mono : (s t : ℕ) (xs : List ℕ) → s ≤ t → Sorted t xs → Sorted s xs
Sorted-mono s t [] h a = tt
Sorted-mono s t (x ∷ xs) h a = (omega arith, a.1)

Sorted-append :
    (t now : ℕ) (xs : List ℕ)
    → t ≤ now
    → All (λ x. x ≤ now) xs
    → Sorted t xs
    → Sorted t (xs ++ now ∷ [])
Sorted-append t now [] h u a = (h, tt)
Sorted-append t now (x ∷ xs) h u a = (a.0, Sorted-append x now xs u.0 u.1 a.1)

All-le-append :
    (now : ℕ) (xs : List ℕ) → All (λ x. x ≤ now) xs → All (λ x. x ≤ now) (xs ++ now ∷ [])
All-le-append now [] u = (omega arith, tt)
All-le-append now (x ∷ xs) u = (u.0, All-le-append now xs u.1)

All-le_mono : (t now : ℕ) (xs : List ℕ) → t ≤ now → All (λ x. x ≤ t) xs → All (λ x. x ≤ now) xs
All-le_mono t now [] h u = tt
All-le_mono t now (x ∷ xs) h u = (omega arith, All-le_mono t now xs h u.1)

-- Behind a young hit all are young.
filter-young :
    (window now x : ℕ) (xs : List ℕ)
    → young window now x ≡ true
    → Sorted x xs
    → filter (young window now) xs ≡ xs
unfolding filter
filter-young window now x [] y a = refl
filter-young window now x (z ∷ xs) y a =
    let young_z : young window now z ≡ true = ground arith in
    rw young_z (ap (λ r. z ∷ r) (filter-young window now z xs young_z a.1))

-- What is dropped from the front of a sorted queue is all that is old.
evict-filter :
    (window now t : ℕ) (xs : List ℕ)
    → Sorted t xs
    → evict window now xs ≡ filter (young window now) xs
unfolding evict drop_while filter
evict-filter window now t [] a = refl
evict-filter window now t (x ∷ xs) a = elim (Bool-cases (is_old window now x)) [
  | inl old ↦ rw old (evict-filter window now x xs a.1)
  | inr new ↦ rw new (ap (λ r. x ∷ r) (sym (filter-young window now x xs (rw new) a.1)))
]

Sorted-evict : (window now t : ℕ) (xs : List ℕ) → Sorted t xs → Sorted t (evict window now xs)
unfolding evict drop_while
Sorted-evict window now t [] a = tt
Sorted-evict window now t (x ∷ xs) a = elim (Bool-cases (is_old window now x)) [
  | inl old ↦ rw old (Sorted-mono t x _ a.0 (Sorted-evict window now x xs a.1))
  | inr new ↦ rw new a
]

All-le-evict :
    (window now t : ℕ) (xs : List ℕ) → All (λ x. x ≤ t) xs → All (λ x. x ≤ t) (evict window now xs)
unfolding evict drop_while
All-le-evict window now t [] u = tt
All-le-evict window now t (x ∷ xs) u = elim (Bool-cases (is_old window now x)) [
  | inl old ↦ rw old (All-le-evict window now t xs u.1)
  | inr new ↦ rw new u
]

-- What is young later is young now.
filter-filter :
    (window now later : ℕ) (xs : List ℕ)
    → now ≤ later
    → filter (young window later) (filter (young window now) xs) ≡ filter (young window later) xs
unfolding filter
filter-filter window now later [] h = refl
filter-filter window now later (x ∷ xs) h = ground (arith, filter-filter window now later xs)

-- A queue and a history that answer alike from time `t` on.
record Agree (window t : ℕ) (kept granted : List ℕ) : Type 0 where
  sorted : Sorted 0 kept
  past : All (λ x. x ≤ t) kept
  same : (now : ℕ) → t ≤ now → filter (young window now) kept ≡ filter (young window now) granted

Agree-nil : (window t : ℕ) → Agree window t [] []
Agree-nil window t = record { sorted = tt; past = tt; same = λ now h. refl }

module _ (limit : RateLimit) (t now : ℕ) {kept granted : List ℕ} where
  evict-same :
      Agree limit.window t kept granted
      → t ≤ now
      → evict limit.window now kept ≡ filter (young limit.window now) granted
  evict-same a h = evict-filter limit.window now 0 kept a.sorted ∙ a.same now h

  Agree-evict :
      Agree limit.window t kept granted
      → t ≤ now
      → Agree limit.window now (evict limit.window now kept) granted
  Agree-evict a h = record {
    sorted = Sorted-evict limit.window now 0 kept a.sorted;
    past = All-le-evict limit.window now now kept (All-le_mono t now kept h a.past);
    same = λ later g. rw (evict-same a h) (filter-filter limit.window now later granted g);
  }

Agree-append :
    (window now : ℕ) {kept granted : List ℕ}
    → Agree window now kept granted
    → Agree window now (kept ++ now ∷ []) (granted ++ now ∷ [])
Agree-append window now {kept} {granted} a = record {
  sorted = Sorted-append 0 now kept (omega arith) a.past a.sorted;
  past = All-le-append now kept a.past;
  same = λ later g. rw (
    filter-append (young window later) kept (now ∷ []),
    filter-append (young window later) granted (now ∷ []),
    a.same later g,
  );
}

leb-ltb : (a b : ℕ) → leb a b ≡ true → ltb b a ≡ false
leb-ltb a b h = ground arith

nleb-ltb : (a b : ℕ) → leb a b ≡ false → ltb b a ≡ true
nleb-ltb a b h = ground arith

-- One call, answered alike, leaves a queue and a history that agree.
hit-agrees :
    (limit : RateLimit) (t now : ℕ) (kept granted : List ℕ)
    → Agree limit.window t kept granted
    → t ≤ now
    → ((hit limit now kept).0 ≡ (reference_hit limit now granted).0)
      × Agree limit.window now (hit limit now kept).1 (reference_hit limit now granted).1
unfolding hit reference_hit
hit-agrees limit t now kept granted a h =
    let e = ap length (sym (evict-same limit t now a h)) in
    let after = Agree-evict limit t now a h in
    elim (Bool-cases (leb limit.max (length (evict limit.window now kept)))) [
      | inl full ↦ rw (e, full, leb-ltb _ _ full) (refl, after)
      | inr room ↦ rw (e, room, nleb-ltb _ _ room) (refl, Agree-append limit.window now after)
    ]

-- A queue and a history for every caller.
AllAgree : ℕ → ℕ → Hits → Hits → Type 0
AllAgree window t hits granted =
    (key : Text)
    → Agree window t (unwrap_or (lookup key hits) []) (unwrap_or (lookup key granted) [])

Agree-mono :
    (window s t : ℕ) {kept granted : List ℕ}
    → s ≤ t
    → Agree window s kept granted
    → Agree window t kept granted
Agree-mono window s t {kept} h a = record {
  sorted = a.sorted;
  past = All-le_mono s t kept h a.past;
  same = λ now g. a.same now (omega arith);
}

AllAgree-insert :
    (window s t : ℕ) (key : Text) (kept' granted' : List ℕ) (hits granted : Hits)
    → s ≤ t
    → AllAgree window s hits granted
    → Agree window t kept' granted'
    → AllAgree window t (insert key kept' hits) (insert key granted' granted)
unfolding AllAgree
AllAgree-insert window s t key kept' granted' hits granted h all one j =
    rw (lookup-insert key j kept' hits, lookup-insert key j granted' granted)
      (elim (Bool-cases (key == j)) [
        | inl here ↦ rw here one
        | inr other ↦ rw other (Agree-mono window s t h (all j))
      ])

answers-agree :
    (limit : RateLimit) (t : ℕ) (hits granted : Hits) (calls : List (Text × ℕ))
    → AllAgree limit.window t hits granted
    → IsAscending t calls
    → answers (allow_at limit) hits calls ≡ answers (reference_allow_at limit) granted calls
unfolding answers allow_at reference_allow_at AllAgree
answers-agree limit t hits granted [] all up = refl
answers-agree limit t hits granted ((key, now) ∷ calls) all up =
    let step = hit-agrees limit t now _ _ (all key) up.0 in
    ap₂ (λ b bs. b ∷ bs) step.0
      (answers-agree limit now _ _ calls
        (AllAgree-insert limit.window t now key _ _ hits granted up.0 all step.1) up.1)

-- For every limit and every row of calls whose times never go back, starting from a fresh limiter:
-- each call is answered as by a limiter that forgets nothing and allows a caller exactly when fewer
-- than `max` of the hits that it was granted are younger than the window. Callers do not share.
pub allow_at-window :
    (limit : RateLimit) (calls : List (Text × ℕ))
    → IsAscending 0 calls
    → answers (allow_at limit) [] calls ≡ answers (reference_allow_at limit) [] calls
allow_at-window limit calls up =
    answers-agree limit 0 [] [] calls (unfold AllAgree lookup in λ key. Agree-nil limit.window 0) up
