-- ===== src/Service/Ledger/Status.antt =====
-- Which status a wave of conversions leaves.
use sebenza.Base.{
  codes, ◌≡◌, ◌≢◌, inl, inr, true, List, [], ◌∷◌, any, arith, ◌==◌, nat_eq, text_eq, text_beq_iff,
  if◌then◌else◌, Bool-cases,
}
use sebenza.Draft.{status_beq, status_beq_iff, DraftStatus, promoted, status_eq}
use sebenza.Convert.{ConversionOutcome, is_created}
use sebenza.Convert.Run.{status_after}

-- One of the outcomes is a creation.
pub data HasCreated : List ConversionOutcome → Type 0 where
  here :
      (o : ConversionOutcome) (outcomes : List ConversionOutcome)
      → o.outcome ≡ codes "created"
      → HasCreated (o ∷ outcomes)
  later :
      (o : ConversionOutcome) (outcomes : List ConversionOutcome)
      → HasCreated outcomes
      → HasCreated (o ∷ outcomes)

HasCreated-any :
    (outcomes : List ConversionOutcome) → HasCreated outcomes → any is_created outcomes ≡ true
unfolding any is_created
HasCreated-any _ (here o outcomes created) =
    ground (arith, text_beq_iff o.outcome (codes "created"), created)
HasCreated-any _ (later o outcomes has) = ground (arith, HasCreated-any outcomes has)

any-HasCreated :
    (outcomes : List ConversionOutcome) → any is_created outcomes ≡ true → HasCreated outcomes
unfolding any is_created
any-HasCreated [] found = absurd (ground (arith, found))
any-HasCreated (o ∷ outcomes) found = elim (Bool-cases (o.outcome == codes "created")) [
  | inl created ↦
      here o outcomes (ground (arith, created, text_beq_iff o.outcome (codes "created")))
  | inr other ↦ later o outcomes (any-HasCreated outcomes (ground (arith, found, other)))
]

-- The status of a draft that was read with one status and has another when the wave is recorded: promoted
-- if it was read as promoted or a worktree was created, and otherwise the one that it has.
pub data Promotes (read had : DraftStatus) (outcomes : List ConversionOutcome)
    : DraftStatus → Type 0 where
  was_promoted : read ≡ promoted → Promotes read had outcomes promoted
  by_creation : HasCreated outcomes → Promotes read had outcomes promoted
  as_it_was : read ≢ promoted → ¬ HasCreated outcomes → Promotes read had outcomes had

pub Promotes-status_after :
    (read had : DraftStatus) (outcomes : List ConversionOutcome)
    → Promotes read had outcomes (if status_after read outcomes == promoted then promoted else had)
unfolding status_after status_beq
Promotes-status_after read had outcomes = elim (Bool-cases (any is_created outcomes)) [
  | inl found ↦ rw found (by_creation (any-HasCreated outcomes found))
  | inr missing ↦ rw missing (elim (Bool-cases (read == promoted)) [
    | inl was ↦ rw was (was_promoted ((status_beq_iff read promoted).0 was))
    | inr other ↦ rw other (
        as_it_was (λ is. ground (arith, other, (status_beq_iff read promoted).1 is))
          (λ has. ground (arith, missing, HasCreated-any outcomes has)))
  ])
]
