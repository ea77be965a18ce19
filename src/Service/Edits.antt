-- ===== src/Service/Edits.antt =====
-- The reads and edits of a draft in crates/common/src/services/inbox_service.rs. The registered projects, by
-- path and name, are a parameter.
pub mod Deleted
use sebenza.Base.{
  ℕ, zero, suc, ◌+◌, ◌-◌, ◌*◌, ◌/◌, ◌%◌, ◌^◌, ◌≤◌, ◌<◌, max, Text, codes, ◌≡◌, ◌≢◌, refl, sym, ap,
  ◌∙◌, subst, ◌↔◌, ◌⊎◌, inl, inr, Bool, true, false, not, ◌&&◌, ◌||◌, Option, none, some, List, [],
  ◌∷◌, ◌++◌, map, append-nil, append_assoc, arith, Eq, ◌==◌, nat_eq, text_eq, text_beq,
  text_beq_iff, text_beq_refl, nat_beq_iff, ltb, leb, if◌then◌else◌, unwrap_or, is_some, or_else,
  is_some_and, keep_if, all, any, find, filter, filter_map, find_map, contains, length, take,
  lookup, insert, remove, is_empty, is_blank, trim, Bool-cases, Option-cases, All,
}
use sebenza.Draft.{
  InboxDraft, InboxDraftView, ProjectRef, parsed, raw, dropped, promoted, status_eq,
}
use sebenza.Store
use sebenza.Store.{editor, default_patch, FrontmatterPatch, merge_frontmatter}
use sebenza.World.{Env, M, pure, raise, ◌>>=◌, ◌>>◌, refuse_if}
use sebenza.Service.{InboxServiceError, of_store, confirmation_required}

pub data ProjectLink : Type 0 where
  -- path, name
  resolved : Text → Text → ProjectLink
  unresolved : Text → ProjectLink

unfoldable pub resolve_project : List (Text × Text) → Option ProjectRef → Option ProjectLink
resolve_project projects none = none
resolve_project projects (some project) = elim (find (λ p. p.0 == project.path) projects) [
  | some entry ↦ some (resolved project.path entry.1)
  | none ↦ some (unresolved project.path)
]

unfoldable pub link_of : {V : Type 0} → List (Text × Text) → InboxDraftView V → Option ProjectLink
link_of projects (parsed draft) = resolve_project projects draft.frontmatter.project
link_of projects (raw _ _ _) = none

-- `InboxService::get`
unfoldable pub get_linked :
    {V : Type 0}
    → List (Text × Text)
    → Text
    → M V InboxServiceError (InboxDraftView V × Option ProjectLink)
get_linked projects id = do view ← of_store (Store.get id); pure (view, link_of projects view)

module _ {V : Type 0} (env : Env V) where
  unfoldable pub edit : Text → FrontmatterPatch V → M V InboxServiceError (InboxDraft V)
  edit id patch = of_store (merge_frontmatter env id editor patch)

  unfoldable pub rename : Text → Text → M V InboxServiceError (InboxDraft V)
  rename id title = edit id (record default_patch { title = some title })

  unfoldable pub link_project : Text → Text → M V InboxServiceError (InboxDraft V)
  link_project id path =
      let project : ProjectRef = record { path = path } in
      edit id (record default_patch { project = some (some project) })

  unfoldable pub unlink_project : Text → M V InboxServiceError (InboxDraft V)
  unlink_project id = edit id (record default_patch { project = some none })

  unfoldable pub drop_draft : Text → M V InboxServiceError (InboxDraft V)
  drop_draft id = edit id (record default_patch { status = some dropped })

unfoldable pub is_promoted : {V : Type 0} → InboxDraftView V → Bool
is_promoted (parsed draft) = draft.frontmatter.status == promoted
is_promoted (raw _ _ _) = false

-- The condition of `InboxService::delete`, which reads the draft only where the caller did not confirm.
unfoldable pub check_deletion : {V : Type 0} → Text → Bool → M V InboxServiceError Unit
check_deletion id true = pure tt
check_deletion id false = do
  view ← of_store (Store.get id)
  refuse_if (is_promoted view) (confirmation_required id)

unfoldable pub delete_draft : {V : Type 0} → Text → Bool → M V InboxServiceError Unit
delete_draft id confirmed = do check_deletion id confirmed; of_store (Store.delete id)
