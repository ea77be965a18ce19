-- ===== src/Service/Ledger/Recorded.antt =====
-- What a wave of conversions leaves in the draft.
use sebenza.Service.Ledger.Merge.{
  Holds, refuse_if-pass, after_merge, merged-Holds, merge_as_job-ok, record_outcomes-Holds,
  promote_if-Holds,
}
use sebenza.Service.Ledger.Status.{Promotes, Promotes-status_after}
use sebenza.Base.{
  Text, ◌≡◌, refl, ap, ◌∙◌, subst, inl, inr, false, not, some, List, [], ◌∷◌, ◌++◌, append_assoc,
  ◌==◌, nat_eq, text_eq, filter_map, is_empty, Option-cases, nat_ltb_ℤ,
}
use sebenza.Draft.{InboxDraft, DraftStatus, promoted, status_eq}
use sebenza.Convert.{ConversionTarget, ConversionOutcome}
use sebenza.Convert.Targets.{validate_targets}
use sebenza.Convert.Run.{Runner, status_after}
use sebenza.Store.{default_patch, FrontmatterPatch, inbox_draft_schema_version}
use sebenza.World.{Env, World, ok}
use sebenza.Service.Effects.{bind-ok, parsed_draft-ok}
use sebenza.Service.Reads.{Readable}
use sebenza.Service.Ledger.{checked_draft, record_wave, wave, record_outcomes, convert_streaming}

-- The conversions of the draft after a wave of which these values were written.
unfoldable pub ledger_after : {V : Type 0} → (read had written : List V) → List V
ledger_after read had [] = had
ledger_after read had (value ∷ written) = read ++ value ∷ written

-- What the record of a wave leaves of an item that had these conversions, this status and this body: `read` is
-- the draft as it was read before the wave.
pub record IsRecorded {V : Type 0} (env : Env V) (id : Text) (read : InboxDraft V) (values : List V)
    (state : DraftStatus) (text : Text) (outcomes : List ConversionOutcome) (after : World V)
    : Type 0 where
  pub status : DraftStatus
  pub holds :
      Holds id
        (ledger_after read.frontmatter.conversions values (filter_map env.to_value outcomes))
        status
        text
        after
  pub promotes : Promotes read.frontmatter.status state outcomes status

module _ {V : Type 0} (env : Env V) (id : Text) (read : InboxDraft V) where
  -- What is written of the outcomes: over the conversions that were read, whatever the draft has by now.
  record_outcomes-ledger_after :
      (values : List V) (state : DraftStatus) (text : Text) (outcomes : List ConversionOutcome)
      (w : World V)
      → Holds id values state text w
      → (w' : World V) × (record_outcomes env id read.frontmatter.conversions outcomes w
          ≡ (ok tt, w'))
        × Holds id
            (ledger_after read.frontmatter.conversions values (filter_map env.to_value outcomes))
            state
            text
            w'
  unfolding record_outcomes filter_map ledger_after
  record_outcomes-ledger_after values state text [] w h = (w, refl, h)
  record_outcomes-ledger_after values state text (outcome ∷ outcomes) w h =
      elim (Option-cases (env.to_value outcome)) [
        | inl unwritten ↦
            let (w', ran, held) = record_outcomes-ledger_after values state text outcomes w h in
            (w', rw (record_outcomes, unwritten) ran, rw (filter_map, unwritten) held)
        | inr (value, written) ↦
            let known = read.frontmatter.conversions in
            let patch : FrontmatterPatch V = record default_patch {
              conversions = some (known ++ value ∷ []);
            } in
            let (w', ran, held) =
              record_outcomes-Holds env id (known ++ value ∷ []) state text outcomes
                (after_merge env id patch h.readable.draft w)
                (merged-Holds env id patch values state text w h) in
            (
              w',
              rw (record_outcomes, written)
                  (bind-ok _ _ w (after_merge env id patch h.readable.draft w) tt
                      (merge_as_job-ok env id patch values state text w h)
                    ∙ ran),
              rw (filter_map, written, ledger_after)
                  (subst (λ vs. Holds id vs state text w')
                    (append_assoc known (value ∷ []) (filter_map env.to_value outcomes)) held),
            )
      ]

  record_wave-IsRecorded :
      (values : List V) (state : DraftStatus) (text : Text) (outcomes : List ConversionOutcome)
      (w : World V)
      → Holds id values state text w
      → (w' : World V) × (record_wave env id read outcomes w ≡ (ok tt, w'))
        × IsRecorded env id read values state text outcomes w'
  unfolding record_wave
  record_wave-IsRecorded values state text outcomes w h =
      let (w1, ran1, held1) = record_outcomes-ledger_after values state text outcomes w h in
      let (w2, ran2, held2) =
        promote_if-Holds env id (status_after read.frontmatter.status outcomes == promoted) _ _ _ w1
          held1 in
      (
        w2,
        bind-ok _ _ w w1 tt ran1 ∙ ran2,
        record {
          status = _;
          holds = held2;
          promotes = Promotes-status_after read.frontmatter.status state outcomes;
        },
      )

module _ {V : Type 0} (env : Env V) (lower : Text → Text) (known : List Text) (runner : Runner)
    (id : Text) (targets : List ConversionTarget) (w : World V) (r : Readable id w) where
  checked_draft-ok :
      validate_targets lower targets known ≡ []
      → checked_draft lower known id targets w ≡ (ok r.draft, w)
  unfolding checked_draft is_empty
  checked_draft-ok valid =
      bind-ok _ _ w w r.draft (parsed_draft-ok id w r)
      ∙ bind-ok _ _ w w tt (refuse_if-pass _ _ w (ap (λ es. not (is_empty es)) valid))

  -- For an item that can be read and written, and targets that pass the checks: a wave that nothing comes
  -- between answers with the outcomes of the runner, and leaves the item with its body, with the conversions that
  -- it held followed by the new outcomes, as far as the YAML library can write them, and as promoted exactly when
  -- it was or when one of the outcomes is a creation. And where others wrote the item between the reading of the
  -- draft and the record of the wave, whatever they left of it: its body stays theirs; the conversions that were
  -- read and the new outcomes take the place of theirs, if an outcome was written at all; and it is promoted
  -- exactly when it was read as promoted, or a worktree was created, or it is promoted by now.
  pub convert_streaming-IsRecorded :
      (values : List V) (state : DraftStatus) (text : Text) (between : World V)
      → Holds id values state text between
      → nat_ltb_ℤ inbox_draft_schema_version r.draft.frontmatter.schema_version ≡ false
      → validate_targets lower targets known ≡ []
      → ((w' : World V) × (convert_streaming env lower known runner id targets w
            ≡ (ok (wave runner id r.draft targets), w'))
          × IsRecorded env id r.draft r.draft.frontmatter.conversions r.draft.frontmatter.status
              r.draft.body
              (wave runner id r.draft targets)
              w')
        × (checked_draft lower known id targets w ≡ (ok r.draft, w))
        × ((w' : World V) × (record_wave env id r.draft (wave runner id r.draft targets) between
              ≡ (ok tt, w'))
            × IsRecorded env id r.draft values state text (wave runner id r.draft targets) w')
  unfolding convert_streaming
  convert_streaming-IsRecorded values state text between held writable valid =
      let alone : Holds id r.draft.frontmatter.conversions r.draft.frontmatter.status r.draft.body
          w =
        record {
          readable = r;
          writable = writable;
          conversions = refl;
          status = refl;
          body = refl;
        } in
      let outcomes = wave runner id r.draft targets in
      let (w', ran, recorded) = record_wave-IsRecorded env id r.draft _ _ _ outcomes w alone in
      (
        (w', bind-ok _ _ w w r.draft (checked_draft-ok valid) ∙ bind-ok _ _ w w' tt ran, recorded),
        checked_draft-ok valid,
        record_wave-IsRecorded env id r.draft values state text outcomes between held,
      )
