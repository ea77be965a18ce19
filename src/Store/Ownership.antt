-- ===== src/Store/Ownership.antt =====
-- `apply_patch` of crates/common/src/adapters/inbox_store.rs: which fields of a draft each author owns.
use sebenza.Base.{◌≡◌, refl, is_some_and, ◌==◌, arith, if◌then◌else◌}
use sebenza.Draft.{InboxDraftFrontmatter, promoted, status_eq, status_beq}
use sebenza.Store.{FrontmatterPatch, editor, job, apply_patch}

module _ {V : Type 0} (fm : InboxDraftFrontmatter V) (patch : FrontmatterPatch V) where
  -- A patch of the editor leaves the conversions as they are, and neither promotes a draft nor takes a
  -- promotion back.
  apply_patch-editor :
      ((apply_patch fm editor patch).conversions ≡ fm.conversions)
      × ((apply_patch fm editor patch).status == promoted) ≡ (fm.status == promoted)
  unfolding apply_patch status_beq
  apply_patch-editor = (refl, ground arith)

  -- A patch of a conversion job leaves the title and the project as they are; after it the draft is
  -- promoted if it was before or if the patch says so, and otherwise its status is the one it had.
  pub apply_patch-job :
      ((apply_patch fm job patch).title ≡ fm.title)
      × ((apply_patch fm job patch).project ≡ fm.project)
      × (apply_patch fm job patch).status
        ≡ (if is_some_and patch.status (λ s. s == promoted) then promoted else fm.status)
  unfolding apply_patch
  apply_patch-job = (refl, refl, ground arith)
