-- ===== src/Base/Int.antt =====
-- Signed integers over the native numbers: `negsuc n` is -(n + 1).
use Prim.Native.Nat.{ℕ, zero, suc, ◌+◌, ◌-◌, ◌^◌, ◌%◌}
use mathlib.Core.Bool.{Bool, true, false}
use mathlib.Core.Path.{◌≡◌}
use mathlib.Core.Logic.{◌↔◌}
use native.Mathlib.Omega.{arith}
use sebenza.Base.Tests.{ltb, leb, nat_beq, if◌then◌else◌, Eq}

pub data ℤ : Type 0 where
  pos : ℕ → ℤ
  negsuc : ℕ → ℤ

-- `a < b` for a natural `a`
abbrev pub nat_ltb_ℤ : ℕ → ℤ → Bool
nat_ltb_ℤ a (pos b) = ltb a b
nat_ltb_ℤ a (negsuc b) = false

-- `==` on integers
unfoldable pub int_beq : ℤ → ℤ → Bool
int_beq (pos a) (pos b) = nat_beq a b
int_beq (negsuc a) (negsuc b) = nat_beq a b
int_beq _ _ = false

pub int_beq_iff : (a b : ℤ) → (int_beq a b ≡ true) ↔ (a ≡ b)
unfolding int_beq
int_beq_iff (pos a) (pos b) = ground arith
int_beq_iff (pos a) (negsuc b) = ground arith
int_beq_iff (negsuc a) (pos b) = ground arith
int_beq_iff (negsuc a) (negsuc b) = ground arith

instance abbrev pub int_eq : Eq ℤ
int_eq = record { beq = int_beq; beq_iff = int_beq_iff }

-- `n + 1` on an `i32`, which wraps
unfoldable pub i32_suc : ℤ → ℤ
i32_suc (pos n) = if nat_beq (n + 1) (2 ^ 31) then negsuc (2 ^ 31 - 1) else pos (n + 1)
i32_suc (negsuc zero) = pos 0
i32_suc (negsuc (suc n)) = negsuc n

-- `a <= b`
abbrev pub int_leb : ℤ → ℤ → Bool
int_leb (pos a) (pos b) = leb a b
int_leb (pos a) (negsuc b) = false
int_leb (negsuc a) (pos b) = true
int_leb (negsuc a) (negsuc b) = leb b a

-- A number as an `i32`: its low 32 bits, of which the first is the sign.
unfoldable pub i32_of : ℕ → ℤ
i32_of n = if ltb (n % 2 ^ 32) (2 ^ 31) then pos (n % 2 ^ 32) else negsuc (2 ^ 32 - 1 - n % 2 ^ 32)
