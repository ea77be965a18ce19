-- ===== src/Draft/Round.antt =====
-- A draft that is written to its file is read back.
use sebenza.Base.{
  ℕ, Text, codes, ◌≡◌, Bool, true, not, ◌&&◌, none, some, [], ◌∷◌, ◌++◌, arith, nat_eq, text_eq,
  is_some, strip_prefix, split_once, strip_prefix-append,
}
use sebenza.World.{ok}
use sebenza.Draft.{InboxDraft, parsed}
use sebenza.Draft.File.{
  Yaml, opening_fence, closing_fence, parse_parts, parse_inbox_file, emitted, render_inbox_file,
}

-- No line of the text but the first begins with three dashes.
unfoldable pub has_no_fence : Text → Bool
has_no_fence [] = true
has_no_fence (c ∷ s) = not (is_some (strip_prefix (0x0a ∷ codes "---") (c ∷ s))) && has_no_fence s

-- The closing fence does not begin inside such a text.
strip_prefix-inside :
    (c : ℕ) (s body : Text)
    → has_no_fence (c ∷ s) ≡ true
    → strip_prefix closing_fence ((c ∷ s) ++ (closing_fence ++ body)) ≡ none
unfolding strip_prefix has_no_fence
strip_prefix-inside c [] body h = ground (arith, h)
strip_prefix-inside c (d ∷ []) body h = ground (arith, h)
strip_prefix-inside c (d ∷ e ∷ []) body h = ground (arith, h)
strip_prefix-inside c (d ∷ e ∷ f ∷ s) body h = ground (arith, h)

split_once-closing_fence :
    (front body : Text)
    → has_no_fence front ≡ true
    → split_once closing_fence (front ++ (closing_fence ++ body)) ≡ some (front, body)
unfolding split_once has_no_fence
split_once-closing_fence [] body h = ground (arith, strip_prefix-append closing_fence body)
split_once-closing_fence (c ∷ s) body h =
    ground (arith, h, strip_prefix-inside c s body h, split_once-closing_fence s body)

-- A draft that is printed is read back as it was, whatever its body is, when the YAML library reads what
-- it printed of the frontmatter, with the space at its end cut off, back as that frontmatter, and
-- prints no line behind the first that begins with three dashes.
pub parse_inbox_file-render_inbox_file :
    {V : Type 0} (yaml : Yaml V) (draft : InboxDraft V)
    → yaml.from_str (emitted yaml draft.frontmatter) ≡ ok draft.frontmatter
    → has_no_fence (emitted yaml draft.frontmatter) ≡ true
    → parse_inbox_file yaml draft.id (render_inbox_file yaml draft) ≡ parsed draft
unfolding parse_inbox_file render_inbox_file parse_parts
parse_inbox_file-render_inbox_file yaml draft reads plain =
    let front = emitted yaml draft.frontmatter in
    ground (
      arith,
      reads,
      strip_prefix-append opening_fence (front ++ (closing_fence ++ draft.body)),
      split_once-closing_fence front draft.body plain,
    )
