-- ===== src/Tests/Store.antt =====
-- Writes to a draft.
use sebenza.Base.{Text, codes, ◌≡◌, [], ◌∷◌, none, some}
use sebenza.Draft.{p0, PrioritySource, parsed, promoted, status_eq}
use sebenza.Store.{by_operator, set_priority_by, default_patch, FrontmatterPatch, save_body}
use sebenza.Store.Prioritise.{Prioritised, set_priority_by-Prioritised}
use sebenza.Store.Writes.{Saved, save_body-Saved}
use sebenza.World.{World}
use sebenza.World.Outcome.{Outcome}
use sebenza.Tests.Service.{item, test_env, test_draft, opened_world}

save_body-Saved_example :
    Outcome
      (save_body test_env item (codes "hbody") (codes "new") opened_world)
      (Saved test_env item (codes "hbody") (codes "new") opened_world)
      (λ _ w'. w' ≡ opened_world)
save_body-Saved_example = save_body-Saved test_env item (codes "hbody") (codes "new") opened_world

abbrev promoting : FrontmatterPatch Text
promoting = record default_patch { title = some (codes "new"); status = some promoted }

set_priority_by-Prioritised_example :
    Outcome
      (set_priority_by test_env item (by_operator (some p0)) none opened_world)
      (Prioritised test_env item (by_operator (some p0)) opened_world)
      (λ _ w'. w' ≡ opened_world)
set_priority_by-Prioritised_example =
    set_priority_by-Prioritised test_env item (by_operator (some p0)) opened_world none

-- The item with a priority that an operator set.
abbrev operators_world : World Text
operators_world = record opened_world {
  drafts =
      (
        item,
        parsed (record test_draft {
          frontmatter = record test_draft.frontmatter { priority_source = PrioritySource.operator };
        }),
      )
      ∷ [];
}
