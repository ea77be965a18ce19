-- ===== src/Service/Ledger/Merge.antt =====
-- The writes of a job to a draft that can be written, one after the other.
use sebenza.Base.{
  suc, Text, ◌≡◌, refl, sym, ap, ◌∙◌, subst, inl, inr, Bool, true, false, Option, none, some, List,
  [], ◌∷◌, ◌++◌, append-nil, append_assoc, ◌==◌, nat_eq, text_eq, if◌then◌else◌, unwrap_or,
  filter_map, insert, Option-cases, lookup-insert_same, ℤ, nat_ltb_ℤ,
}
use sebenza.Draft.{status_beq, InboxDraft, DraftStatus, parsed, promoted, status_eq}
use sebenza.Convert.{ConversionOutcome}
use sebenza.Store.{
  job, default_patch, FrontmatterPatch, merge_frontmatter, apply_patch, require_writable,
  require_parsed, inbox_draft_schema_version,
}
use sebenza.World.{Env, World, ok, refuse_if}
use sebenza.Service.Effects.{bind-ok, get-ok}
use sebenza.Service.Reads.{Readable}
use sebenza.Service.Ledger.{ignoring, merge_as_job, record_outcomes, promote_if}

-- The item can be written, and holds these conversions, this status and this body.
pub record Holds {V : Type 0} (id : Text) (values : List V) (state : DraftStatus) (text : Text)
    (w : World V) : Type 0 where
  pub readable : Readable id w
  pub writable :
      nat_ltb_ℤ inbox_draft_schema_version readable.draft.frontmatter.schema_version ≡ false
  pub conversions : readable.draft.frontmatter.conversions ≡ values
  pub status : readable.draft.frontmatter.status ≡ state
  pub body : readable.draft.body ≡ text

pub refuse_if-pass :
    {V E : Type 0} (b : Bool) (e : E) (w : World V) → b ≡ false → refuse_if b e w ≡ (ok tt, w)
unfolding refuse_if
refuse_if-pass b e w h = rw h refl

module _ {V : Type 0} (env : Env V) (id : Text) where
  require_writable-ok :
      (values : List V) (state : DraftStatus) (text : Text) (w : World V)
      (h : Holds id values state text w)
      → require_writable id w ≡ (
        ok (record h.readable.draft {
          frontmatter = record h.readable.draft.frontmatter {
            schema_version = ℤ.pos inbox_draft_schema_version;
          };
        }),
        w,
      )
  unfolding require_writable require_parsed
  require_writable-ok values state text w h =
      bind-ok _ _ w w h.readable.draft (bind-ok _ _ w w _ (get-ok id w h.readable))
      ∙ bind-ok _ _ w w tt (refuse_if-pass _ _ w h.writable)

  -- The draft that a patch of the job writes, and the world after it.
  abbrev pub merged : FrontmatterPatch V → InboxDraft V → World V → InboxDraft V
  merged patch draft w = record draft {
    frontmatter =
        record (apply_patch
          (record draft.frontmatter { schema_version = ℤ.pos inbox_draft_schema_version }) job
          patch) { updated_at = env.now_rfc3339 w.clock_reads };
  }

  abbrev pub after_merge : FrontmatterPatch V → InboxDraft V → World V → World V
  after_merge patch draft w = record w {
    clock_reads = suc w.clock_reads;
    drafts = insert id (parsed (merged patch draft w)) w.drafts;
  }

  merge_frontmatter-ok :
      (patch : FrontmatterPatch V) (values : List V) (state : DraftStatus) (text : Text)
      (w : World V) (h : Holds id values state text w)
      → merge_frontmatter env id job patch w
        ≡ (ok (merged patch h.readable.draft w), after_merge patch h.readable.draft w)
  unfolding merge_frontmatter
  merge_frontmatter-ok patch values state text w h =
      bind-ok _ _ w w _ (require_writable-ok values state text w h)
      ∙ bind-ok _ _ w (record w { clock_reads = suc w.clock_reads }) (env.now_rfc3339 w.clock_reads)
          refl
      ∙ bind-ok _ _ (record w { clock_reads = suc w.clock_reads })
          (after_merge patch h.readable.draft w) tt refl

  -- The status that a patch of the job leads to.
  abbrev pub patched : Option DraftStatus → DraftStatus → DraftStatus
  patched patch_status state = elim patch_status [
    | none ↦ state
    | some s ↦ if s == promoted then promoted else state
  ]

  pub merged-Holds :
      (patch : FrontmatterPatch V) (values : List V) (state : DraftStatus) (text : Text)
      (w : World V) (h : Holds id values state text w)
      → Holds id
          (unwrap_or patch.conversions values)
          (patched patch.status state)
          text
          (after_merge patch h.readable.draft w)
  unfolding apply_patch
  merged-Holds patch values state text w h = record {
    readable = record {
      valid = h.readable.valid;
      draft = merged patch h.readable.draft w;
      found = lookup-insert_same id (parsed (merged patch h.readable.draft w)) w.drafts;
    };
    writable = refl;
    conversions = ap (unwrap_or patch.conversions) h.conversions;
    status = ap (patched patch.status) h.status;
    body = h.body;
  }

  -- A patch of the job.
  pub merge_as_job-ok :
      (patch : FrontmatterPatch V) (values : List V) (state : DraftStatus) (text : Text)
      (w : World V) (h : Holds id values state text w)
      → (merge_as_job env id patch w ≡ (ok tt, after_merge patch h.readable.draft w))
  unfolding merge_as_job ignoring
  merge_as_job-ok patch values state text w h =
      ap (λ p. (ok tt, p.1)) (merge_frontmatter-ok patch values state text w h)

  pub record_outcomes-Holds :
      (values : List V) (state : DraftStatus) (text : Text) (outcomes : List ConversionOutcome)
      (w : World V)
      → Holds id values state text w
      → (w' : World V) × (record_outcomes env id values outcomes w ≡ (ok tt, w'))
        × Holds id (values ++ filter_map env.to_value outcomes) state text w'
  unfolding record_outcomes filter_map
  record_outcomes-Holds values state text [] w h =
      (w, refl, subst (λ vs. Holds id vs state text w) (sym (append-nil values)) h)
  record_outcomes-Holds values state text (outcome ∷ outcomes) w h =
      elim (Option-cases (env.to_value outcome)) [
        | inl unwritten ↦
            let (w', ran, held) = record_outcomes-Holds values state text outcomes w h in
            (w', rw (record_outcomes, unwritten) ran, rw (filter_map, unwritten) held)
        | inr (value, written) ↦
            let patch : FrontmatterPatch V = record default_patch {
              conversions = some (values ++ value ∷ []);
            } in
            let (w', ran, held) =
              record_outcomes-Holds (values ++ value ∷ []) state text outcomes
                (after_merge patch h.readable.draft w) (merged-Holds patch values state text w h) in
            (
              w',
              rw (record_outcomes, written)
                  (bind-ok _ _ w (after_merge patch h.readable.draft w) tt
                      (merge_as_job-ok patch values state text w h)
                    ∙ ran),
              rw (filter_map, written)
                  (subst (λ vs. Holds id vs state text w')
                    (append_assoc values (value ∷ []) (filter_map env.to_value outcomes)) held),
            )
      ]

  pub promote_if-Holds :
      (test : Bool) (values : List V) (state : DraftStatus) (text : Text) (w : World V)
      → Holds id values state text w
      → (w' : World V) × (promote_if env test id w ≡ (ok tt, w'))
        × Holds id values (if test then promoted else state) text w'
  unfolding promote_if status_beq
  promote_if-Holds false values state text w h = (w, refl, h)
  promote_if-Holds true values state text w h =
      let patch : FrontmatterPatch V = record default_patch { status = some promoted } in
      (
        after_merge patch h.readable.draft w,
        merge_as_job-ok patch values state text w h,
        merged-Holds patch values state text w h,
      )
