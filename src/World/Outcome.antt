-- ===== src/World/Outcome.antt =====
-- What holds after an action, by its result: rules to walk a method step by step.
use sebenza.Base.{◌≡◌, refl, Bool, true, false, Option, none, some, if◌then◌else◌}
use sebenza.World.{World, M, Result, ok, err, raise, or_raise, refuse_if, map_err, ◌>>=◌}

-- `Q` of the value and the world after a success, `R` of the error and the world after a failure.
abbrev pub Outcome {ℓ} :
    {V E A : Type 0}
    → Result E A × World V
    → (A → World V → Type ℓ)
    → (E → World V → Type ℓ)
    → Type ℓ
Outcome (ok a, w) Q R = Q a w
Outcome (err e, w) Q R = R e w

module _ {ℓ} {V E A B : Type 0} where
  continued :
      (r : Result E A) (w : World V) (f : A → M V E B) (Q : B → World V → Type ℓ)
      (R : E → World V → Type ℓ)
      → Outcome (r, w) (λ a w'. Outcome (f a w') Q R) R
      → Outcome {E = E} {A = B} (elim r [ ok a ↦ f a w | err e ↦ raise e w ]) Q R
  continued (ok a) w f Q R h = h
  continued (err e) w f Q R h = h

  pub Outcome-bind :
      (m : M V E A) (f : A → M V E B) (w : World V) (Q : B → World V → Type ℓ)
      (R : E → World V → Type ℓ)
      → Outcome (m w) (λ a w'. Outcome (f a w') Q R) R
      → Outcome ((m >>= f) w) Q R
  unfolding ◌>>=◌
  Outcome-bind m f w Q R h = continued (m w).0 (m w).1 f Q R h

module _ {ℓ} {V E F A : Type 0} where
  mapped :
      (g : E → F) (r : Result E A) (w : World V) (Q : A → World V → Type ℓ)
      (R : F → World V → Type ℓ)
      → Outcome (r, w) Q (λ e w'. R (g e) w')
      → Outcome {E = F} {A = A} (elim r [ ok a ↦ (ok a, w) | err e ↦ (err (g e), w) ]) Q R
  mapped g (ok a) w Q R h = h
  mapped g (err e) w Q R h = h

  pub Outcome-map_err :
      (g : E → F) (m : M V E A) (w : World V) (Q : A → World V → Type ℓ) (R : F → World V → Type ℓ)
      → Outcome (m w) Q (λ e w'. R (g e) w')
      → Outcome (map_err g m w) Q R
  unfolding map_err
  Outcome-map_err g m w Q R h = mapped g (m w).0 (m w).1 Q R h

module _ {ℓ} {V E : Type 0} (w : World V) (Q : Unit {0} → World V → Type ℓ)
    (R : E → World V → Type ℓ) where
  pub Outcome-refuse_if :
      (b : Bool) (e : E) → (b ≡ true → R e w) → (b ≡ false → Q tt w) → Outcome (refuse_if b e w) Q R
  unfolding refuse_if
  Outcome-refuse_if true e yes_ no_ = yes_ refl
  Outcome-refuse_if false e yes_ no_ = no_ refl

pub Outcome-or_raise {ℓ} :
    {V E A : Type 0} (w : World V) (Q : A → World V → Type ℓ) (R : E → World V → Type ℓ)
    (o : Option A) (e : E)
    → (o ≡ none → R e w)
    → ((a : A) → o ≡ some a → Q a w)
    → Outcome (or_raise o e w) Q R
unfolding or_raise
Outcome-or_raise w Q R none e n s = n refl
Outcome-or_raise w Q R (some a) e n s = s a refl

pub Outcome-if {ℓ} :
    {V E A : Type 0} (w : World V) (Q : A → World V → Type ℓ) (R : E → World V → Type ℓ) (b : Bool)
    (m n : M V E A)
    → (b ≡ true → Outcome (m w) Q R)
    → (b ≡ false → Outcome (n w) Q R)
    → Outcome ((if b then m else n) w) Q R
Outcome-if w Q R true m n yes_ no_ = yes_ refl
Outcome-if w Q R false m n yes_ no_ = no_ refl

pub Outcome-mono {ℓ} :
    {V E A : Type 0} (p : Result E A × World V) (Q Q' : A → World V → Type ℓ)
    (R R' : E → World V → Type ℓ)
    → ((a : A) (w : World V) → Q a w → Q' a w)
    → ((e : E) (w : World V) → R e w → R' e w)
    → Outcome p Q R
    → Outcome p Q' R'
Outcome-mono (ok a, w) Q Q' R R' q r h = q a w h
Outcome-mono (err e, w) Q Q' R R' q r h = r e w h

pub Outcome-elim {ℓ} :
    {V E A B : Type 0} (w : World V) (Q : A → World V → Type ℓ) (R : E → World V → Type ℓ)
    (o : Option B) (m : M V E A) (k : B → M V E A)
    → (o ≡ none → Outcome (m w) Q R)
    → ((b : B) → o ≡ some b → Outcome (k b w) Q R)
    → Outcome ((elim o as (λ _. M V E A) [ none ↦ m | some b ↦ k b ]) w) Q R
Outcome-elim w Q R none m k n s = n refl
Outcome-elim w Q R (some b) m k n s = s b refl
