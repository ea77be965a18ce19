-- ===== src/Base/Lists.antt =====
-- Lists measured by native numbers, and the iterator methods of the source, by a Boolean test.
use Prim.Native.Nat.{◌≤◌, ℕ, zero, suc, ◌+◌}
use mathlib.Core.Path.{◌≡◌, refl, ap, ◌∙◌}
use mathlib.Core.Logic.{inl, inr}
use mathlib.Core.Bool.{◌&&◌, Bool, true, false, ◌||◌}
use mathlib.Core.List.{List, [], ◌∷◌, ◌++◌, append-nil}
use mathlib.Core.Option.{Option, none, some}
use native.Mathlib.Omega.{arith}
use sebenza.Base.Tests.{if◌then◌else◌, Eq, ◌==◌, Bool-cases}

module _ {ℓ} {A : Type ℓ} where
  abbrev pub length : List A → ℕ
  length [] = 0
  length (x ∷ xs) = suc (length xs)

  pub length-append : (xs ys : List A) → length (xs ++ ys) ≡ length xs + length ys
  length-append [] ys = omega arith
  length-append (x ∷ xs) ys = omega (arith, length-append xs ys)

  -- `Iterator::find`
  unfoldable pub find : (A → Bool) → List A → Option A
  find p [] = none
  find p (x ∷ xs) = if p x then some x else find p xs

  -- `Iterator::any` and `all`
  unfoldable pub any : (A → Bool) → List A → Bool
  any p [] = false
  any p (x ∷ xs) = if p x then true else any p xs

  unfoldable pub all : (A → Bool) → List A → Bool
  all p [] = true
  all p (x ∷ xs) = if p x then all p xs else false

  -- `Iterator::filter`
  unfoldable pub filter : (A → Bool) → List A → List A
  filter p [] = []
  filter p (x ∷ xs) = let rest = filter p xs in if p x then x ∷ rest else rest

  -- `Iterator::take_while` and `skip_while`
  unfoldable pub take_while : (A → Bool) → List A → List A
  take_while p [] = []
  take_while p (x ∷ xs) = if p x then x ∷ take_while p xs else []

  unfoldable pub drop_while : (A → Bool) → List A → List A
  drop_while p [] = []
  drop_while p (x ∷ xs) = if p x then drop_while p xs else x ∷ xs

  abbrev pub take : ℕ → List A → List A
  take zero xs = []
  take (suc n) [] = []
  take (suc n) (x ∷ xs) = x ∷ take n xs

  abbrev pub reverse_onto : List A → List A → List A
  reverse_onto [] acc = acc
  reverse_onto (x ∷ xs) acc = reverse_onto xs (x ∷ acc)

  -- `Iterator::rev`
  unfoldable pub rev : List A → List A
  rev xs = reverse_onto xs []

  pub find-append :
      (p : A → Bool) (xs ys : List A)
      → find p (xs ++ ys) ≡ (elim (find p xs) [ none ↦ find p ys | some x ↦ some x ])
  unfolding find
  find-append p [] ys = refl
  find-append p (x ∷ xs) ys = ground (arith, find-append p xs ys)

  pub filter-append :
      (p : A → Bool) (xs ys : List A) → filter p (xs ++ ys) ≡ filter p xs ++ filter p ys
  unfolding filter
  filter-append p [] ys = refl
  filter-append p (x ∷ xs) ys = ground (arith, filter-append p xs ys)

-- `Iterator::filter_map`
unfoldable pub filter_map {ℓ κ} : {A : Type ℓ} {B : Type κ} → (A → Option B) → List A → List B
filter_map f [] = []
filter_map f (x ∷ xs) = let rest = filter_map f xs in elim (f x) [ none ↦ rest | some y ↦ y ∷ rest ]

pub length-filter_map {ℓ κ} :
    {A : Type ℓ} {B : Type κ} (f : A → Option B) (xs : List A)
    → length (filter_map f xs) ≤ length xs
unfolding filter_map
length-filter_map f [] = omega arith
length-filter_map f (x ∷ xs) = ground (arith, length-filter_map f xs)

-- `Iterator::find_map`
unfoldable pub find_map {ℓ κ} : {A : Type ℓ} {B : Type κ} → (A → Option B) → List A → Option B
find_map f [] = none
find_map f (x ∷ xs) = elim (f x) [ none ↦ find_map f xs | some y ↦ some y ]

-- `contains`
module _ {ℓ} {A : Type ℓ} ⦃e : Eq A⦄ where
  unfoldable pub contains : List A → A → Bool
  contains [] a = false
  contains (x ∷ xs) a = if x == a then true else contains xs a

  pub contains-append :
      (xs ys : List A) (a : A) → contains (xs ++ ys) a ≡ (contains xs a || contains ys a)
  unfolding contains
  contains-append [] ys a = refl
  contains-append (x ∷ xs) ys a = ground (arith, contains-append xs ys a)

-- A predicate of every member, which computes to a tuple.
abbrev pub All {ℓ κ} : {T : Type ℓ} (holds : T → Type κ) (items : List T) → Type κ
All holds [] = Unit
All holds (item ∷ items) = holds item × All holds items

module _ {ℓ} {A : Type ℓ} (p : A → Bool) where
  pub all-append : (xs ys : List A) → all p (xs ++ ys) ≡ (all p xs && all p ys)
  unfolding all
  all-append [] ys = refl
  all-append (x ∷ xs) ys = ground (arith, all-append xs ys)

  pub all-take : (n : ℕ) (xs : List A) → all p xs ≡ true → all p (take n xs) ≡ true
  unfolding all
  all-take zero xs h = refl
  all-take (suc n) [] h = refl
  all-take (suc n) (x ∷ xs) h = ground (arith, all-take n xs)

pub length-take {ℓ} : {A : Type ℓ} (n : ℕ) (xs : List A) → length (take n xs) ≤ n
length-take zero xs = omega arith
length-take (suc n) [] = omega arith
length-take (suc n) (x ∷ xs) = omega (arith, length-take n xs)

-- `rev` twice, and of a list that is joined.
module _ {ℓ} {A : Type ℓ} where
  reverse_onto-onto :
      (xs acc ys : List A) → reverse_onto (reverse_onto xs acc) ys ≡ reverse_onto acc (xs ++ ys)
  reverse_onto-onto [] acc ys = refl
  reverse_onto-onto (x ∷ xs) acc ys = reverse_onto-onto xs (x ∷ acc) ys

  reverse_onto-append :
      (xs ys acc : List A) → reverse_onto (xs ++ ys) acc ≡ reverse_onto ys (reverse_onto xs acc)
  reverse_onto-append [] ys acc = refl
  reverse_onto-append (x ∷ xs) ys acc = reverse_onto-append xs ys (x ∷ acc)

  reverse_onto-acc : (xs acc ys : List A) → reverse_onto xs (acc ++ ys) ≡ reverse_onto xs acc ++ ys
  reverse_onto-acc [] acc ys = refl
  reverse_onto-acc (x ∷ xs) acc ys = reverse_onto-acc xs (x ∷ acc) ys

  pub rev-rev : (xs : List A) → rev (rev xs) ≡ xs
  unfolding rev
  rev-rev xs = reverse_onto-onto xs [] [] ∙ append-nil xs

  pub rev-append : (xs ys : List A) → rev (xs ++ ys) ≡ rev ys ++ rev xs
  unfolding rev
  rev-append xs ys = reverse_onto-append xs ys [] ∙ reverse_onto-acc ys [] (reverse_onto xs [])

  pub drop_while-split :
      (p : A → Bool) (xs : List A) → (front : List A) × (xs ≡ front ++ drop_while p xs)
  unfolding drop_while
  drop_while-split p [] = ([], refl)
  drop_while-split p (x ∷ xs) =
      let (front, e) = drop_while-split p xs in
      elim (Bool-cases (p x)) [
        | inl dropped ↦ (x ∷ front, rw dropped (ap (λ l. x ∷ l) e))
        | inr kept ↦ ([], rw kept refl)
      ]
