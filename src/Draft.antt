-- ===== src/Draft.antt =====
-- crates/common/src/domain/model.rs: an inbox draft, its frontmatter and its priority. A value of the
-- serde_yaml crate is of the parameter type `V`; a mapping is the list of its entries.
pub mod File
pub mod Round
use sebenza.Base.{Text, ℤ, Bool, true, false, ◌≡◌, ◌↔◌, Option, List, Eq, arith}

pub data Priority : Type 0 where
  p0 p1 p2 p3 : Priority

pub data PrioritySource : Type 0 where
  agent operator : PrioritySource

pub data DraftStatus : Type 0 where
  draft promoted dropped : DraftStatus

pub record ProjectRef : Type 0 where
  pub path : Text

pub record InboxDraftFrontmatter (V : Type 0) : Type 0 where
  pub schema_version : ℤ
  pub title : Text
  pub project : Option ProjectRef
  pub status : DraftStatus
  pub created_at : Text
  pub updated_at : Text
  pub conversions : List V
  pub priority : Priority
  pub priority_source : PrioritySource
  pub extra : List (V × V)

pub record InboxDraft (V : Type 0) : Type 0 where
  pub id : Text
  pub frontmatter : InboxDraftFrontmatter V
  pub body : Text

pub data InboxDraftView (V : Type 0) : Type 0 where
  parsed : InboxDraft V → InboxDraftView V
  -- id, raw_text, error
  raw : Text → Text → Text → InboxDraftView V

-- The derived `PartialEq` of the three enums.
unfoldable pub priority_beq : Priority → Priority → Bool
priority_beq p0 p0 = true
priority_beq p1 p1 = true
priority_beq p2 p2 = true
priority_beq p3 p3 = true
priority_beq _ _ = false

unfoldable pub source_beq : PrioritySource → PrioritySource → Bool
source_beq agent agent = true
source_beq operator operator = true
source_beq _ _ = false

unfoldable pub status_beq : DraftStatus → DraftStatus → Bool
status_beq draft draft = true
status_beq promoted promoted = true
status_beq dropped dropped = true
status_beq _ _ = false

pub priority_beq_iff : (a b : Priority) → (priority_beq a b ≡ true) ↔ (a ≡ b)
unfolding priority_beq
priority_beq_iff a b = ground arith

pub source_beq_iff : (a b : PrioritySource) → (source_beq a b ≡ true) ↔ (a ≡ b)
unfolding source_beq
source_beq_iff a b = ground arith

pub status_beq_iff : (a b : DraftStatus) → (status_beq a b ≡ true) ↔ (a ≡ b)
unfolding status_beq
status_beq_iff a b = ground arith

instance abbrev pub priority_eq : Eq Priority
priority_eq = record { beq = priority_beq; beq_iff = priority_beq_iff }

instance abbrev pub source_eq : Eq PrioritySource
source_eq = record { beq = source_beq; beq_iff = source_beq_iff }

instance abbrev pub status_eq : Eq DraftStatus
status_eq = record { beq = status_beq; beq_iff = status_beq_iff }
