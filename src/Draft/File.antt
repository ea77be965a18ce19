-- ===== src/Draft/File.antt =====
-- crates/common/src/domain/model.rs: the text of a draft's file, and the order of the drafts. The YAML
-- library's reader and printer of a frontmatter are the parameter `Yaml`.
use sebenza.Base.{
  ℕ, Text, codes, Option, none, some, [], ◌∷◌, ◌++◌, nat_eq, text_eq, unwrap_or, strip_prefix,
  split_once, trim_end_matches, is_whitespace,
}
use Prim.Native.Nat.{compare, Ordering}
use sebenza.World.{Result, ok, err}
use sebenza.Draft.{
  Priority, p0, p1, p2, p3, InboxDraftFrontmatter, InboxDraft, InboxDraftView, parsed, raw,
}

pub record Yaml (V : Type 0) : Type 0 where
  pub from_str : Text → Result Text (InboxDraftFrontmatter V)
  pub to_string : InboxDraftFrontmatter V → Option Text

abbrev pub opening_fence : Text
opening_fence = codes "---" ++ 0x0a ∷ []

abbrev pub closing_fence : Text
closing_fence = 0x0a ∷ (codes "---" ++ 0x0a ∷ [])

module _ {V : Type 0} (yaml : Yaml V) where
  -- Behind the opening fence: the YAML and the body.
  unfoldable pub parse_parts : Text → Text → Option (Text × Text) → InboxDraftView V
  parse_parts id text none = raw id text (codes "missing closing frontmatter fence")
  parse_parts id text (some (front, body)) = elim (yaml.from_str front) [
    | ok frontmatter ↦ parsed record { id = id; frontmatter = frontmatter; body = body }
    | err e ↦ raw id text e
  ]

  unfoldable pub parse_inbox_file : Text → Text → InboxDraftView V
  parse_inbox_file id text = elim (strip_prefix opening_fence text) [
    | none ↦ raw id text (codes "missing opening frontmatter fence")
    | some rest ↦ parse_parts id text (split_once closing_fence rest)
  ]

  -- The YAML as it is written.
  unfoldable pub emitted : InboxDraftFrontmatter V → Text
  emitted frontmatter =
      let printed = unwrap_or (yaml.to_string frontmatter) [] in
      trim_end_matches is_whitespace (unwrap_or (strip_prefix opening_fence printed) printed)

  unfoldable pub render_inbox_file : InboxDraft V → Text
  render_inbox_file draft =
      opening_fence ++ (emitted draft.frontmatter ++ (closing_fence ++ draft.body))

-- `Ord` of a priority and of a text, and `Ordering::then_with`
abbrev pub priority_rank : Priority → ℕ
priority_rank p0 = 0
priority_rank p1 = 1
priority_rank p2 = 2
priority_rank p3 = 3

unfoldable pub text_compare : Text → Text → Ordering
text_compare [] [] = Ordering.eq
text_compare [] (d ∷ t) = Ordering.lt
text_compare (c ∷ s) [] = Ordering.gt
text_compare (c ∷ s) (d ∷ t) = elim (compare c d) [
  | Ordering.lt ↦ Ordering.lt
  | Ordering.eq ↦ text_compare s t
  | Ordering.gt ↦ Ordering.gt
]

abbrev pub then_with : Ordering → Ordering → Ordering
then_with Ordering.eq later = later
then_with Ordering.lt later = Ordering.lt
then_with Ordering.gt later = Ordering.gt

unfoldable pub inbox_order : {V : Type 0} → InboxDraftView V → InboxDraftView V → Ordering
inbox_order (parsed x) (parsed y) =
    then_with
      (compare (priority_rank x.frontmatter.priority) (priority_rank y.frontmatter.priority))
      (then_with (text_compare y.frontmatter.created_at x.frontmatter.created_at)
        (text_compare y.id x.id))
inbox_order (parsed x) (raw _ _ _) = Ordering.lt
inbox_order (raw _ _ _) (parsed y) = Ordering.gt
inbox_order (raw x _ _) (raw y _ _) = text_compare y x
