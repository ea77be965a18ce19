-- ===== src/Base/Decimal.antt =====
-- The decimal form of a number can be read back, so that two numbers never share one.
use Prim.Native.Nat.{ℕ, zero, suc, ◌+◌, ◌-◌, ◌*◌, ◌/◌, ◌%◌, ◌<◌}
use mathlib.Core.Path.{◌≡◌, refl, sym, ap, ◌∙◌}
use mathlib.Core.Option.{some}
use mathlib.Core.List.{[], ◌∷◌, ◌++◌}
use native.Mathlib.Omega.{arith}
use sebenza.Base.Tests.{nat_beq_iff}
use sebenza.Base.Chars.{Text}
use sebenza.Base.Split.{digits_from, to_decimal, from_decimal_onto, strip_prefix}

from_decimal_onto-append :
    (n : ℕ) (s t : Text)
    → from_decimal_onto n (s ++ t) ≡ from_decimal_onto (from_decimal_onto n s) t
unfolding from_decimal_onto
from_decimal_onto-append n [] t = refl
from_decimal_onto-append n (c ∷ s) t = from_decimal_onto-append (n * 10 + (c - b'0')) s t

from_decimal_onto-digits_from :
    (fuel n : ℕ) → n < fuel → from_decimal_onto 0 (digits_from fuel n) ≡ n
unfolding digits_from from_decimal_onto
from_decimal_onto-digits_from zero n h = absurd (omega arith)
from_decimal_onto-digits_from (suc fuel) n h = ground (
  arith,
  h,
  from_decimal_onto-append 0 (digits_from fuel (n / 10)) ((b'0' + n % 10) ∷ []),
  from_decimal_onto-digits_from fuel (n / 10),
)

pub from_decimal_onto-to_decimal : (n : ℕ) → from_decimal_onto 0 (to_decimal n) ≡ n
unfolding to_decimal
from_decimal_onto-to_decimal n = from_decimal_onto-digits_from (suc n) n (omega arith)

pub to_decimal_inj : (n m : ℕ) → to_decimal n ≡ to_decimal m → n ≡ m
to_decimal_inj n m e =
    sym (from_decimal_onto-to_decimal n)
    ∙ ap (from_decimal_onto 0) e
    ∙ from_decimal_onto-to_decimal m

pub strip_prefix-append : (prefix s : Text) → strip_prefix prefix (prefix ++ s) ≡ some s
unfolding strip_prefix
strip_prefix-append [] s = refl
strip_prefix-append (p ∷ prefix) s = ground (arith, strip_prefix-append prefix s, nat_beq_iff p p)
