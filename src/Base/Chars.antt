-- ===== src/Base/Chars.antt =====
-- Text as the list of its code points.
use Prim.Native.Nat.{ℕ, ◌+◌}
use Prim.Native.Char.{code}
use Prim.Native.String.{String}
use mathlib.Core.Path.{◌≡◌, refl}
use mathlib.Core.Logic.{◌↔◌}
use mathlib.Core.Bool.{Bool, true, false, ◌&&◌, ◌||◌}
use mathlib.Core.List.{◌++◌, List, [], ◌∷◌}
use native.Mathlib.Omega.{arith}
use sebenza.Base.Tests.{ltb, leb, if◌then◌else◌, Eq, ◌==◌, nat_eq}
use sebenza.Base.Lists.{drop_while, rev}

abbrev pub Text : Type 0
Text = List ℕ

-- A literal of the source.
abbrev pub codes : String → Text
codes String.[] = []
codes (String.◌∷◌ c s) = code c ∷ codes s

unfoldable pub text_beq : Text → Text → Bool
text_beq [] [] = true
text_beq [] (d ∷ t) = false
text_beq (c ∷ s) [] = false
text_beq (c ∷ s) (d ∷ t) = if c == d then text_beq s t else false

pub text_beq_iff : (s t : Text) → (text_beq s t ≡ true) ↔ (s ≡ t)
unfolding text_beq
text_beq_iff [] [] = ((λ _. refl), (λ _. refl))
text_beq_iff [] (d ∷ t) = ground arith
text_beq_iff (c ∷ s) [] = ground arith
text_beq_iff (c ∷ s) (d ∷ t) = ground (arith, text_beq_iff s t)

pub text_beq_refl : (s : Text) → text_beq s s ≡ true
text_beq_refl s = (text_beq_iff s s).1 refl

instance abbrev pub text_eq : Eq Text
text_eq = record { beq = text_beq; beq_iff = text_beq_iff }

-- `str::len`, the bytes of the UTF-8 form
abbrev pub utf8_width : ℕ → ℕ
utf8_width c = if ltb c 0x80 then 1 else if ltb c 0x800 then 2 else if ltb c 0x10000 then 3 else 4

unfoldable pub byte_len : Text → ℕ
byte_len [] = 0
byte_len (c ∷ s) = utf8_width c + byte_len s

-- `char::is_whitespace`: the code points with the Unicode property White_Space.
unfoldable pub is_whitespace : ℕ → Bool
is_whitespace c =
    (leb 9 c && leb c 13)
    || c == 0x20
    || c == 0x85
    || c == 0xa0
    || c == 0x1680
    || (leb 0x2000 c && leb c 0x200a)
    || c == 0x2028
    || c == 0x2029
    || c == 0x202f
    || c == 0x205f
    || c == 0x3000

-- `str::trim_start`, `trim_end`, `trim` and `trim_matches`
module _ (p : ℕ → Bool) where
  unfoldable pub trim_end_matches : Text → Text
  trim_end_matches s = rev (drop_while p (rev s))

  unfoldable pub trim_matches : Text → Text
  unfolding trim_end_matches
  trim_matches s = trim_end_matches (drop_while p s)

unfoldable pub trim : Text → Text
unfolding is_whitespace
trim s = trim_matches is_whitespace s

unfoldable pub is_empty {ℓ} : {A : Type ℓ} → List A → Bool
is_empty [] = true
is_empty (x ∷ xs) = false

-- `s.trim().is_empty()`
abbrev pub is_blank : Text → Bool
is_blank s = is_empty (trim s)

-- `str::lines`: split at each newline, less a carriage return before it.
unfoldable pub strip_cr : Text → Text
strip_cr [] = []
strip_cr (c ∷ []) = if c == 0x0d then [] else c ∷ []
strip_cr (c ∷ d ∷ s) = c ∷ strip_cr (d ∷ s)

unfoldable pub lines_from : Text → Text → List Text
unfolding strip_cr is_empty
lines_from current [] = if is_empty current then [] else current ∷ []
lines_from current (c ∷ s) =
    let rest = lines_from [] s in
    let longer = lines_from (current ++ c ∷ []) s in
    if c == 0x0a then strip_cr current ∷ rest else longer

unfoldable pub lines : Text → List Text
unfolding lines_from
lines s = lines_from [] s
