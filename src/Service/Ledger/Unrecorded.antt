-- ===== src/Service/Ledger/Unrecorded.antt =====
-- A wave for a draft of a newer version.
use sebenza.Base.{
  Text, ◌≡◌, refl, ap, ◌∙◌, inl, inr, Bool, true, false, not, List, [], ◌∷◌, ◌++◌, ◌==◌, nat_eq,
  text_eq, is_empty, Option-cases, nat_ltb_ℤ,
}
use sebenza.Draft.{promoted, status_eq}
use sebenza.Convert.{ConversionTarget, ConversionOutcome}
use sebenza.Convert.Targets.{validate_targets}
use sebenza.Convert.Run.{Runner, status_after}
use sebenza.Store.{
  FrontmatterPatch, merge_frontmatter, require_writable, require_parsed, inbox_draft_schema_version,
  unsupported_version,
}
use sebenza.World.{Env, World, M, ok, err, raise, refuse_if, ◌>>=◌}
use sebenza.Service.Effects.{bind-ok, get-ok, parsed_draft-ok}
use sebenza.Service.Reads.{Readable}
use sebenza.Service.Ledger.{
  checked_draft, record_wave, wave, ignoring, merge_as_job, record_outcomes, promote_if,
  convert_streaming,
}
use sebenza.Service.Ledger.Merge.{refuse_if-pass}

bind-err :
    {V E A B : Type 0} (m : M V E A) (f : A → M V E B) (w w' : World V) (e : E)
    → m w ≡ (err e, w')
    → (m >>= f) w ≡ (err e, w')
unfolding ◌>>=◌
bind-err m f w w' e h = ap (λ p. elim p.0 [ ok x ↦ f x p.1 | err y ↦ raise y p.1 ]) h

refuse_if-stop :
    {V E : Type 0} (b : Bool) (e : E) (w : World V) → b ≡ true → refuse_if b e w ≡ (err e, w)
unfolding refuse_if
refuse_if-stop b e w h = rw h refl

module _ {V : Type 0} (env : Env V) (id : Text) (w : World V) (r : Readable id w)
    (newer : nat_ltb_ℤ inbox_draft_schema_version r.draft.frontmatter.schema_version ≡ true) where
  merge_as_job_refused : (patch : FrontmatterPatch V) → merge_as_job env id patch w ≡ (ok tt, w)
  unfolding merge_as_job ignoring merge_frontmatter require_writable require_parsed
  merge_as_job_refused patch =
      ap (λ p. (ok tt, p.1))
        (bind-err _ _ w w (unsupported_version id r.draft.frontmatter.schema_version) (
          bind-ok _ _ w w r.draft (bind-ok _ _ w w _ (get-ok id w r))
          ∙ bind-err _ _ w w (unsupported_version id r.draft.frontmatter.schema_version)
              (refuse_if-stop _ _ w newer)))

  record_outcomes_refused :
      (values : List V) (outcomes : List ConversionOutcome)
      → record_outcomes env id values outcomes w ≡ (ok tt, w)
  unfolding record_outcomes
  record_outcomes_refused values [] = refl
  record_outcomes_refused values (outcome ∷ outcomes) = elim (Option-cases (env.to_value outcome)) [
    | inl unwritten ↦ rw (record_outcomes, unwritten) (record_outcomes_refused values outcomes)
    | inr (value, written) ↦
        rw (record_outcomes, written)
          (bind-ok _ _ w w tt (merge_as_job_refused _)
            ∙ record_outcomes_refused (values ++ value ∷ []) outcomes)
  ]

  promote_if_refused : (test : Bool) → promote_if env test id w ≡ (ok tt, w)
  unfolding promote_if
  promote_if_refused false = refl
  promote_if_refused true = merge_as_job_refused _

  -- A wave for an item whose draft can be read and is of a newer version than the program writes, with targets
  -- that pass the checks, is run all the same and answered with its outcomes, but nothing of it is recorded:
  -- the inbox is as it was.
  pub convert_streaming-unrecorded :
      (lower : Text → Text) (known : List Text) (runner : Runner) (targets : List ConversionTarget)
      → validate_targets lower targets known ≡ []
      → convert_streaming env lower known runner id targets w
        ≡ (ok (wave runner id r.draft targets), w)
  unfolding convert_streaming checked_draft record_wave is_empty
  convert_streaming-unrecorded lower known runner targets valid =
      let outcomes = wave runner id r.draft targets in
      bind-ok _ _ w w r.draft (
        bind-ok _ _ w w r.draft (parsed_draft-ok id w r)
        ∙ bind-ok _ _ w w tt (refuse_if-pass _ _ w (ap (λ es. not (is_empty es)) valid)))
      ∙ bind-ok _ _ w w tt (
          bind-ok _ _ w w tt (record_outcomes_refused r.draft.frontmatter.conversions outcomes)
          ∙ promote_if_refused (status_after r.draft.frontmatter.status outcomes == promoted))
