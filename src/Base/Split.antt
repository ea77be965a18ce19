-- ===== src/Base/Split.antt =====
-- The methods of `str` that cut a text, and the decimal form of a number.
use Prim.Native.Nat.{◌-◌, ◌*◌, ℕ, zero, suc, ◌+◌, ◌/◌, ◌%◌}
use mathlib.Core.Bool.{Bool, true, false, ◌&&◌, ◌||◌}
use mathlib.Core.Option.{Option, none, some}
use mathlib.Core.List.{List, [], ◌∷◌, ◌++◌, map}
use sebenza.Base.Tests.{leb, ltb, if◌then◌else◌, ◌==◌, nat_eq}
use sebenza.Base.Lists.{rev}
use sebenza.Base.Chars.{Text}

-- `char::to_ascii_lowercase`, and `str::to_ascii_lowercase`
unfoldable pub ascii_lower : ℕ → ℕ
ascii_lower c = if leb b'A' c && leb c b'Z' then c + 32 else c

unfoldable pub to_ascii_lowercase : Text → Text
unfolding ascii_lower
to_ascii_lowercase s = map ascii_lower s

unfoldable pub is_ascii_digit : ℕ → Bool
is_ascii_digit c = leb b'0' c && leb c b'9'

unfoldable pub is_ascii_lowercase : ℕ → Bool
is_ascii_lowercase c = leb b'a' c && leb c b'z'

unfoldable pub is_ascii_alphabetic : ℕ → Bool
unfolding is_ascii_lowercase
is_ascii_alphabetic c = is_ascii_lowercase c || (leb b'A' c && leb c b'Z')

unfoldable pub is_ascii_alphanumeric : ℕ → Bool
unfolding is_ascii_alphabetic is_ascii_digit
is_ascii_alphanumeric c = is_ascii_alphabetic c || is_ascii_digit c

-- `str::strip_prefix`
unfoldable pub strip_prefix : Text → Text → Option Text
strip_prefix [] s = some s
strip_prefix (p ∷ prefix) [] = none
strip_prefix (p ∷ prefix) (c ∷ s) = if p == c then strip_prefix prefix s else none

-- `str::ends_with`
unfoldable pub ends_with : Text → Text → Bool
ends_with suffix s = elim (strip_prefix (rev suffix) (rev s)) [ none ↦ false | some _ ↦ true ]

-- `str::split_once`
unfoldable pub split_once : Text → Text → Option (Text × Text)
unfolding strip_prefix
split_once sep [] = elim (strip_prefix sep []) [ none ↦ none | some rest ↦ some ([], rest) ]
split_once sep (c ∷ s) =
    let later = split_once sep s in
    elim (strip_prefix sep (c ∷ s)) [
      | some rest ↦ some ([], rest)
      | none ↦ elim later [ none ↦ none | some (before, rest) ↦ some (c ∷ before, rest) ]
    ]

-- `s.split(p).next()`, up to the first character that passes the test
unfoldable pub before : (ℕ → Bool) → Text → Text
before p [] = []
before p (c ∷ s) = if p c then [] else c ∷ before p s

-- `s.rsplit(p).next()`, from behind the last character that passes the test
unfoldable pub after_last : (ℕ → Bool) → Text → Text
unfolding before
after_last p s = rev (before p (rev s))

-- The digits of a number in base ten: on fuel, which the number itself is enough of.
unfoldable pub digits_from : ℕ → ℕ → Text
digits_from zero n = []
digits_from (suc fuel) n =
    let more = digits_from fuel (n / 10) in
    let digit = b'0' + n % 10 in if ltb n 10 then digit ∷ [] else more ++ digit ∷ []

-- `format!("{n}")`
unfoldable pub to_decimal : ℕ → Text
unfolding digits_from
to_decimal n = digits_from (suc n) n

-- A character in front of the first piece.
unfoldable pub onto_first : ℕ → List Text → List Text
onto_first c [] = (c ∷ []) ∷ []
onto_first c (piece ∷ pieces) = (c ∷ piece) ∷ pieces

-- `str::split`, at each character that passes the test
unfoldable pub split_at : (ℕ → Bool) → Text → List Text
unfolding onto_first
split_at p [] = [] ∷ []
split_at p (c ∷ s) = let rest = split_at p s in if p c then [] ∷ rest else onto_first c rest

-- `char::is_control`
unfoldable pub is_control : ℕ → Bool
is_control c = ltb c 0x20 || (leb 0x7f c && leb c 0x9f)

-- The number that decimal digits write, and the digits before the last one.
unfoldable pub from_decimal_onto : ℕ → Text → ℕ
from_decimal_onto n [] = n
from_decimal_onto n (c ∷ s) = from_decimal_onto (n * 10 + (c - b'0')) s

-- `str::strip_suffix`
unfoldable pub strip_suffix : Text → Text → Option Text
strip_suffix suffix s = elim (strip_prefix (rev suffix) (rev s)) [
  | none ↦ none
  | some front ↦ some (rev front)
]
