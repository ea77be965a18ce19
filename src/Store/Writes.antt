-- ===== src/Store/Writes.antt =====
-- The writes of crates/common/src/adapters/inbox_store.rs: `save_body`, `force_write_body`,
-- `merge_frontmatter`.
use sebenza.Base.{
  ◌≡◌, refl, true, false, some, text_eq, text_beq_iff, arith, Text, lookup, lookup-insert_same, ℤ,
  nat_ltb_ℤ,
}
use sebenza.Draft.{InboxDraft, InboxDraftView, parsed, raw}
use sebenza.World.{World, Env, M, raise, pure}
use sebenza.World.Outcome.{Outcome, Outcome-bind, Outcome-refuse_if}
use sebenza.Service.Reads.{Outcome-get}
use sebenza.Store.{
  InboxStoreError, is_ulid, require_parsed, require_writable, inbox_draft_schema_version, unparsed,
  save_body,
}

module _ {ℓ} {V : Type 0} (id : Text) (w : World V) (Q : InboxDraft V → World V → Type ℓ)
    (R : InboxStoreError → World V → Type ℓ) where
  pub Outcome-require_parsed :
      ((e : InboxStoreError) → R e w)
      → ((d : InboxDraft V) → is_ulid id ≡ true → lookup id w.drafts ≡ some (parsed d) → Q d w)
      → Outcome (require_parsed id w) Q R
  unfolding require_parsed
  Outcome-require_parsed fails works =
      Outcome-bind _ _ w Q R (Outcome-get id w _ _ fails λ v valid found. by_view v valid found)
    where
      by_view :
          (v : InboxDraftView V)
          → is_ulid id ≡ true
          → lookup id w.drafts ≡ some v
          → Outcome {V = V} {E = InboxStoreError} {A = InboxDraft V}
              ((elim v as (λ _. M V InboxStoreError (InboxDraft V)) [
                | parsed d ↦ pure d
                | raw i _ error ↦ raise (unparsed id error)
              ])
                w)
              Q
              R
      by_view (parsed d) valid e = works d valid e
      by_view (raw i t error) valid e = fails _

-- The draft of the file, at the version that a write gives it.
abbrev pub at_version : {V : Type 0} → InboxDraft V → InboxDraft V
at_version d = record d {
  frontmatter = record d.frontmatter { schema_version = ℤ.pos inbox_draft_schema_version };
}

module _ {ℓ} {V : Type 0} (id : Text) (w : World V) (Q : InboxDraft V → World V → Type ℓ)
    (R : InboxStoreError → World V → Type ℓ) where
  pub Outcome-require_writable :
      ((e : InboxStoreError) → R e w)
      → ((d : InboxDraft V)
          → is_ulid id ≡ true
          → lookup id w.drafts ≡ some (parsed d)
          → nat_ltb_ℤ inbox_draft_schema_version d.frontmatter.schema_version ≡ false
          → Q (at_version d) w)
      → Outcome (require_writable id w) Q R
  unfolding require_writable
  Outcome-require_writable fails works = Outcome-bind _ _ w Q R (
      Outcome-require_parsed id w _ _ fails λ d valid found.
        Outcome-bind _ _ w Q R
          (Outcome-refuse_if w _ _ _ _ (λ _. fails _) λ known. works d valid found known))

module _ {V : Type 0} (env : Env V) (id expected body : Text) (w : World V) where
  -- A save that went through: the caller's hash was that of the body it replaces, the file holds the
  -- new draft, and all else of it is as it was but for the version and the time of the write.
  pub record Saved (d' : InboxDraft V) (w' : World V) : Type 0 where
    pub old : InboxDraft V
    pub was : lookup id w.drafts ≡ some (parsed old)
    pub known : nat_ltb_ℤ inbox_draft_schema_version old.frontmatter.schema_version ≡ false
    pub fresh : env.sha1_hex old.body ≡ expected
    pub is : lookup id w'.drafts ≡ some (parsed d')
    pub content : d' ≡ record (at_version old) {
      body = body;
      frontmatter = record (at_version old).frontmatter { updated_at = d'.frontmatter.updated_at };
    }
    pub logs : w'.logs ≡ w.logs

  -- `save_body` either fails and changes nothing at all, or the hash that the caller expected is that of
  -- the body in the file, the version of the draft is a known one, and the file holds the answer: the
  -- draft with the new body, the current version and the time of the write, all else as it was. A
  -- body that another writer changed is never overwritten.
  pub save_body-Saved : Outcome (save_body env id expected body w) Saved (λ _ w'. w' ≡ w)
  unfolding save_body
  save_body-Saved = Outcome-bind _ _ w _ _ (
      Outcome-require_writable id w _ _ (λ _. refl)
        λ d valid found known. Outcome-bind _ _ w _ _ (
          Outcome-refuse_if w _ _ _ _ (λ _. refl)
            λ same. Outcome-bind _ _ _ _ _ (
              Outcome-bind _ _ _ _ _ (record {
                old = d;
                was = found;
                known = known;
                fresh = ground (arith, same, text_beq_iff (env.sha1_hex d.body) expected);
                is = lookup-insert_same id _ w.drafts;
                content = refl;
                logs = refl;
              }))))
