-- ===== src/Service/Edits/Deleted.antt =====
-- What the deletion of a draft takes away.
use sebenza.Base.{
  Text, ◌≡◌, refl, inl, inr, Bool, true, false, not, none, some, arith, ◌==◌, nat_eq, text_eq,
  if◌then◌else◌, is_some, lookup, Option-cases, lookup-remove,
}
use sebenza.Draft.{InboxDraftView}
use sebenza.Store
use sebenza.Store.{is_ulid, InboxStoreError}
use sebenza.World.{map_err, World}
use sebenza.World.Outcome.{Outcome, Outcome-bind, Outcome-map_err, Outcome-refuse_if}
use sebenza.Service.{InboxServiceError, store}
use sebenza.Service.Reads.{Outcome-get}
use sebenza.Service.Edits.{check_deletion, is_promoted, delete_draft}

-- What is left after the deletion of an item that was there.
pub record IsDeleted {V : Type 0} (id : Text) (confirmed : Bool) (w w' : World V) : Type 0 where
  pub view : InboxDraftView V
  pub was : lookup id w.drafts ≡ some view
  pub allowed : confirmed ≡ false → is_promoted view ≡ false
  pub drafts :
      (other : Text)
      → lookup other w'.drafts ≡ (if id == other then none else lookup other w.drafts)
  pub logs :
      (other : Text) → lookup other w'.logs ≡ (if id == other then none else lookup other w.logs)
  pub audits : w'.audits ≡ w.audits
  pub sends : w'.sends ≡ w.sends

module _ {V : Type 0} (id : Text) (w : World V) where
  -- The deletion of the store, for a caller who may delete what is there.
  Outcome-delete :
      (confirmed : Bool)
      → ((view : InboxDraftView V)
          → lookup id w.drafts ≡ some view
          → confirmed ≡ false
          → is_promoted view ≡ false)
      → Outcome {E = InboxServiceError}
          (map_err store (Store.delete id) w)
          (λ _ w'. IsDeleted id confirmed w w')
          (λ _ w'. w' ≡ w)
  unfolding Store.delete
  Outcome-delete confirmed allowed = Outcome-map_err store (Store.delete id) w _ _ (
      Outcome-bind _ _ w _ _ (
        Outcome-refuse_if w _ _ (not (is_ulid id)) _ (λ _. refl)
          λ valid. Outcome-bind _ _ w _ _ (
            Outcome-bind _ _ w _ _ (
              Outcome-refuse_if w _ _ (not (is_some (lookup id w.drafts))) _ (λ _. refl)
                λ there. elim (Option-cases (lookup id w.drafts)) [
                  | inl missing ↦ absurd (ground (arith, missing, there))
                  | inr (view, was) ↦ record {
                    view = view;
                    was = was;
                    allowed = allowed view was;
                    drafts = λ other. lookup-remove id other w.drafts;
                    logs = λ other. lookup-remove id other w.logs;
                    audits = refl;
                    sends = refl;
                  }
                ]))))

  check_then_delete :
      (confirmed : Bool)
      → Outcome (delete_draft id confirmed w) (λ _ w'. IsDeleted id confirmed w w') (λ _ w'. w' ≡ w)
  unfolding delete_draft check_deletion
  check_then_delete true =
      Outcome-bind _ _ w _ _ (Outcome-delete true (λ view was no. absurd (ground (arith, no))))
  check_then_delete false = Outcome-bind _ _ w _ _ (
      Outcome-bind _ _ w _ _ (
        Outcome-map_err store (Store.get id) w _ _ (
          Outcome-get id w _ _ (λ _. refl)
            λ view valid found.
              Outcome-refuse_if w _ _ (is_promoted view) _ (λ _. refl)
                λ plain. Outcome-delete false (λ other was _. ground (arith, found, was, plain)))))

-- A deletion either fails and changes nothing, or the item was there and was not promoted unless the caller
-- confirmed, and it takes away this item's draft and its log and no other's.
pub delete_draft-IsDeleted :
    {V : Type 0} (id : Text) (confirmed : Bool) (w : World V)
    → Outcome (delete_draft id confirmed w) (λ _ w'. IsDeleted id confirmed w w') (λ _ w'. w' ≡ w)
delete_draft-IsDeleted id confirmed w = check_then_delete id w confirmed
