-- ===== src/Service/Ledger.antt =====
-- Conversions of crates/common/src/services/inbox_service.rs: `convert_streaming`, `convert` and
-- `conversion_history`. The change to lower case, the paths of the known
-- projects and the runner are parameters. The runner does not read
-- the inbox, so that the record of each outcome, which the code writes before the next target begins, is written
-- after the wave here, outcome by outcome. No lock is held over a wave: others can write the draft between
-- `checked_draft`, which reads it, and `record_wave`, which writes what was read and the outcomes.
pub mod Merge
pub mod Recorded
pub mod Status
pub mod Unrecorded
use sebenza.Base.{
  ℕ, zero, suc, ◌+◌, ◌-◌, ◌*◌, ◌/◌, ◌%◌, ◌^◌, ◌≤◌, ◌<◌, max, Text, codes, ◌≡◌, ◌≢◌, refl, sym, ap,
  ◌∙◌, subst, ◌↔◌, ◌⊎◌, inl, inr, Bool, true, false, not, ◌&&◌, ◌||◌, Option, none, some, List, [],
  ◌∷◌, ◌++◌, map, append-nil, append_assoc, arith, Eq, ◌==◌, nat_eq, text_eq, text_beq,
  text_beq_iff, text_beq_refl, nat_beq_iff, ltb, leb, if◌then◌else◌, unwrap_or, is_some, or_else,
  is_some_and, keep_if, all, any, find, filter, filter_map, find_map, contains, length, take,
  lookup, insert, remove, is_empty, is_blank, trim, Bool-cases, Option-cases, All,
}
use sebenza.Draft.{InboxDraft, promoted, status_eq}
use sebenza.Convert.{ConversionTarget, ConversionOutcome}
use sebenza.Convert.Targets.{validate_targets}
use sebenza.Convert.Run.{Runner, run_conversion_item, status_after}
use sebenza.Store.{job, default_patch, FrontmatterPatch, merge_frontmatter}
use sebenza.World.{Env, M, ok, pure, refuse_if, ◌>>=◌, ◌>>◌}
use sebenza.Service.{InboxServiceError, invalid_targets}
use sebenza.Service.Requests.{parsed_draft}

-- `let _ = …`: what was written stays written, and the result is dropped.
unfoldable pub ignoring : {V E F A : Type 0} → M V F A → M V E Unit
ignoring m w = (ok tt, (m w).1)

module _ {V : Type 0} where
  -- Up to the wave: the draft as it was read, with targets that pass the checks.
  unfoldable pub checked_draft :
      (lower : Text → Text) (known : List Text)
      → Text
      → List ConversionTarget
      → M V InboxServiceError (InboxDraft V)
  checked_draft lower known id targets = do
    draft ← parsed_draft id
    refuse_if (not (is_empty (validate_targets lower targets known)))
        (invalid_targets (validate_targets lower targets known))
    pure draft

  -- The wave, over the draft as it was read.
  unfoldable pub wave :
      Runner → Text → InboxDraft V → List ConversionTarget → List ConversionOutcome
  wave runner id draft targets =
      (run_conversion_item runner
        (record { draft_id = id; title = draft.frontmatter.title; body = draft.body }) targets []).0

module _ {V : Type 0} (env : Env V) where
  unfoldable pub merge_as_job : Text → FrontmatterPatch V → M V InboxServiceError Unit
  merge_as_job id patch = ignoring (merge_frontmatter env id job patch)

  -- The closure that records each outcome, over the wave; `recorded` is what it holds.
  unfoldable pub record_outcomes :
      Text → List V → List ConversionOutcome → M V InboxServiceError Unit
  record_outcomes id recorded [] = pure tt
  record_outcomes id recorded (outcome ∷ outcomes) = elim (env.to_value outcome) [
    | none ↦ record_outcomes id recorded outcomes
    | some value ↦
        merge_as_job id (record default_patch { conversions = some (recorded ++ value ∷ []) })
        >> record_outcomes id (recorded ++ value ∷ []) outcomes
  ]

  unfoldable pub promote_if : Bool → Text → M V InboxServiceError Unit
  promote_if test id =
      if test then merge_as_job id (record default_patch { status = some promoted }) else pure tt

  -- What is written of a wave, over the draft as it was read before it.
  unfoldable pub record_wave :
      Text → InboxDraft V → List ConversionOutcome → M V InboxServiceError Unit
  record_wave id draft outcomes = do
    record_outcomes id draft.frontmatter.conversions outcomes
    promote_if (status_after draft.frontmatter.status outcomes == promoted) id

  module _ (lower : Text → Text) (known : List Text) (runner : Runner) where
    unfoldable pub convert_streaming :
        Text → List ConversionTarget → M V InboxServiceError (List ConversionOutcome)
    convert_streaming id targets = do
      draft ← checked_draft lower known id targets
      record_wave id draft (wave runner id draft targets)
      pure (wave runner id draft targets)

  unfoldable pub conversion_history : Text → M V InboxServiceError (List ConversionOutcome)
  conversion_history id = do
    draft ← parsed_draft id
    pure (filter_map env.from_value draft.frontmatter.conversions)
