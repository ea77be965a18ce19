-- ===== src/Delivery/Fence.antt =====
-- The fence around a pasted resolution.
use sebenza.Base.{
  ap, ℕ, zero, suc, ◌+◌, ◌≤◌, max, Text, ◌≡◌, refl, Bool, true, false, ◌||◌, [], ◌∷◌, length, all,
  ◌==◌, nat_eq, leb, if◌then◌else◌, arith,
}
use sebenza.Delivery.{longest_run, repeat, fence_for}

-- The backticks that a text begins with.
unfoldable pub leading_ticks : Text → ℕ
leading_ticks [] = 0
leading_ticks (c ∷ s) = if c == b'`' then leading_ticks s + 1 else 0

-- Somewhere in the text stand `n` backticks in a row.
unfoldable pub has_run : ℕ → Text → Bool
has_run n [] = leb n 0
has_run n (c ∷ s) = leb n (leading_ticks (c ∷ s)) || has_run n s

tick_run : ℕ → ℕ → ℕ
tick_run run c = if c == b'`' then run + 1 else 0

-- A round of the loop.
longest_run-cons :
    (longest run c : ℕ) (s : Text)
    → longest_run longest run (c ∷ s)
      ≡ longest_run (max longest (tick_run run c)) (tick_run run c) s
unfolding longest_run tick_run
longest_run-cons longest run c s = refl

longest_run-ge : (longest run : ℕ) (s : Text) → longest ≤ longest_run longest run s
longest_run-ge longest run [] = unfold longest_run in omega arith
longest_run-ge longest run (c ∷ s) = omega (
  arith,
  longest_run-cons longest run c s,
  longest_run-ge (max longest (tick_run run c)) (tick_run run c) s,
)

leading_ticks-le :
    (longest run : ℕ) (s : Text) → run ≤ longest → run + leading_ticks s ≤ longest_run longest run s
unfolding leading_ticks
leading_ticks-le longest run [] h = unfold longest_run in omega arith
leading_ticks-le longest run (c ∷ s) h = ground (
  arith,
  longest_run-cons longest run c s,
  longest_run-ge (max longest (tick_run run c)) (tick_run run c) s,
  leading_ticks-le (max longest (tick_run run c)) (tick_run run c) s,
  tick_run_lem run c,
)
  where
    tick_run_lem : (r d : ℕ) → tick_run r d ≡ (if d == b'`' then r + 1 else 0)
    tick_run_lem r d = unfold tick_run in refl

has_run-le :
    (n longest run : ℕ) (s : Text)
    → run ≤ longest
    → has_run n s ≡ true
    → n ≤ longest_run longest run s
unfolding has_run
has_run-le n longest run [] r h = ground arith
has_run-le n longest run (c ∷ s) r h = ground (
  arith,
  longest_run-cons longest run c s,
  has_run-le n (max longest (tick_run run c)) (tick_run run c) s,
  leading_ticks-le longest run (c ∷ s),
)

length-repeat : (n c : ℕ) → length (repeat n c) ≡ n
length-repeat zero c = refl
length-repeat (suc n) c = ap suc (length-repeat n c)

all-repeat : (n c : ℕ) → all (λ d. d == c) (repeat n c) ≡ true
unfolding all
all-repeat zero c = refl
all-repeat (suc n) c = ground (arith, all-repeat n c)

-- The fence chosen for a text is made of backticks, is three of them at least, and is longer than
-- every run of backticks in the text: a run as long as the fence stands nowhere in it.
pub fence_for-unclosable :
    (clean : Text)
    → (all (λ c. c == b'`') (fence_for clean) ≡ true)
      × (3 ≤ length (fence_for clean))
      × (has_run (length (fence_for clean)) clean ≡ false)
unfolding fence_for
fence_for-unclosable clean = (
  all-repeat _ b'`',
  omega (arith, length-repeat (max (longest_run 0 0 clean + 1) 3) b'`'),
  rw length-repeat (ground (arith, has_run-le (max (longest_run 0 0 clean + 1) 3) 0 0 clean)),
)
