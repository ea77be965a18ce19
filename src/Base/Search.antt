-- ===== src/Base/Search.antt =====
-- The search for the first number that is free.
use Prim.Native.Nat.{ℕ, zero, suc, ◌+◌, ◌≤◌, ◌<◌}
use mathlib.Core.Bool.{Bool, true, false}
use mathlib.Core.Path.{◌≡◌, refl}
use mathlib.Core.List.{List, [], ◌∷◌}
use native.Mathlib.Omega.{arith}
use sebenza.Base.Tests.{leb, if◌then◌else◌, nat_eq, nat_beq_iff}
use sebenza.Base.Lists.{length, contains}

-- `while taken(n) { n += 1 }`, on fuel
unfoldable pub first_free : (ℕ → Bool) → ℕ → ℕ → ℕ
first_free taken zero n = n
first_free taken (suc fuel) n =
    let later = first_free taken fuel (n + 1) in if taken n then later else n

unfoldable pub count_from : ℕ → List ℕ → ℕ
count_from n [] = 0
count_from n (x ∷ xs) = let rest = count_from n xs in if leb n x then suc rest else rest

pub count_from-le : (n : ℕ) (xs : List ℕ) → count_from n xs ≤ length xs
unfolding count_from
count_from-le n [] = omega arith
count_from-le n (x ∷ xs) = ground (arith, count_from-le n xs)

count_from_mono : (n : ℕ) (xs : List ℕ) → count_from (n + 1) xs ≤ count_from n xs
unfolding count_from
count_from_mono n [] = omega arith
count_from_mono n (x ∷ xs) = ground (arith, count_from_mono n xs)

pub count_from-contains :
    (n : ℕ) (xs : List ℕ) → contains xs n ≡ true → count_from (n + 1) xs < count_from n xs
unfolding count_from contains
count_from-contains n [] h = cc
count_from-contains n (x ∷ xs) h =
    ground (arith, count_from_mono n xs, count_from-contains n xs, nat_beq_iff x n)

first_free-count :
    (taken : ℕ → Bool) (xs : List ℕ)
    → ((n : ℕ) → taken n ≡ true → contains xs n ≡ true)
    → (fuel n : ℕ) → count_from n xs < fuel
    → taken (first_free taken fuel n) ≡ false
unfolding first_free
first_free-count taken xs same zero n h = elim h [ ]
first_free-count taken xs same (suc fuel) n h =
    ground (arith, same n, count_from-contains n xs, first_free-count taken xs same fuel (n + 1))

-- A search among the numbers of a list ends at a free one before its fuel does.
pub first_free-free :
    (taken : ℕ → Bool) (xs : List ℕ) (fuel n : ℕ)
    → ((k : ℕ) → taken k ≡ true → contains xs k ≡ true)
    → length xs < fuel
    → taken (first_free taken fuel n) ≡ false
first_free-free taken xs fuel n same more =
    first_free-count taken xs same fuel n (omega (arith, more, count_from-le n xs))

-- All numbers that the search passed over are taken, and it goes at most as far as its fuel.
pub first_free-least :
    (taken : ℕ → Bool) (fuel n k : ℕ) → n ≤ k → k < first_free taken fuel n → taken k ≡ true
unfolding first_free
first_free-least taken zero n k low high = absurd (omega arith)
first_free-least taken (suc fuel) n k low high =
    ground (arith, low, high, first_free-least taken fuel (n + 1) k, nat_beq_iff n k)

pub first_free-le : (taken : ℕ → Bool) (fuel n : ℕ) → first_free taken fuel n ≤ n + fuel
unfolding first_free
first_free-le taken zero n = omega arith
first_free-le taken (suc fuel) n = ground (arith, first_free-le taken fuel (n + 1))

pub le-first_free : (taken : ℕ → Bool) (fuel n : ℕ) → n ≤ first_free taken fuel n
unfolding first_free
le-first_free taken zero n = omega arith
le-first_free taken (suc fuel) n = ground (arith, le-first_free taken fuel (n + 1))

-- Two tests that agree on all the numbers that the fuel can reach find the same one.
pub first_free-cong :
    (f g : ℕ → Bool) (fuel n : ℕ)
    → ((k : ℕ) → n ≤ k → k < n + fuel → f k ≡ g k)
    → first_free f fuel n ≡ first_free g fuel n
unfolding first_free
first_free-cong f g zero n same = refl
first_free-cong f g (suc fuel) n same = ground (
  arith,
  same n (omega arith) (omega arith),
  first_free-cong f g fuel (n + 1)
      (λ k low high. same k (omega (arith, low)) (omega (arith, high))),
)
