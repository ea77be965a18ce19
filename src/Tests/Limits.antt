-- ===== src/Tests/Limits.antt =====
-- Two callers, one of them over its limit.
use sebenza.Base.{
  ℕ, Text, codes, ◌≡◌, refl, true, false, List, [], ◌∷◌, arith, lookup, insert, drop_while,
  text_beq,
}
use sebenza.Limits.{RateLimit, allow_at, hit, evict}
use sebenza.Limits.Window.{answers, reference_allow_at, allow_at-window}

abbrev two_in_ten : RateLimit
two_in_ten = record { max = 2; window = 10 }

abbrev calls : List (Text × ℕ)
calls = (codes "a", 1) ∷ (codes "a", 4) ∷ (codes "b", 5) ∷ (codes "a", 10) ∷ (codes "a", 11) ∷ []

third-refused : answers (allow_at two_in_ten) [] calls ≡ true ∷ true ∷ true ∷ false ∷ true ∷ []
unfolding answers allow_at hit evict drop_while lookup insert text_beq
third-refused = refl

allow_at-window_example :
    answers (allow_at two_in_ten) [] calls ≡ answers (reference_allow_at two_in_ten) [] calls
allow_at-window_example = allow_at-window two_in_ten calls (omega arith)
