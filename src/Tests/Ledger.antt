-- ===== src/Tests/Ledger.antt =====
-- A wave of one target for a draft, the same for a draft of a newer version, and a deletion.
use sebenza.Service.Ledger.Merge.{Holds}
use sebenza.Service.Edits.Deleted.{IsDeleted, delete_draft-IsDeleted}
use sebenza.Service.Edits.{delete_draft}
use sebenza.World.Outcome.{Outcome}
use sebenza.Policies.Paths.{is_safe_project_path}
use sebenza.Policies.Branch.{
  is_valid_branch_name, sanitize_branch_name, whitespace_to_dash_from, collapse_from, is_refused,
  without_at_brace, is_edge, strip_lock,
}
use sebenza.Base.{
  is_control, ends_with, split_at, onto_first, ascii_lower, trim_matches, drop_while, rev,
  strip_suffix, strip_prefix, is_whitespace, Text, codes, ◌≡◌, refl, true, some, List, [], ◌∷◌,
  nat_eq, text_eq, text_beq, all, any, filter, contains, lookup, is_empty, trim, byte_len, ℤ,
  to_ascii_lowercase,
}
use sebenza.Draft.{InboxDraft, parsed}
use sebenza.Store.{is_ulid}
use sebenza.World.{World, Env, ok}
use sebenza.Convert.Targets.{path_errors, target_errors, validate_from, validate_targets}
use sebenza.Service.Reads.{Readable}
use sebenza.Service.Ledger.{checked_draft, record_wave, wave, convert_streaming}
use sebenza.Service.Ledger.Recorded.{IsRecorded, convert_streaming-IsRecorded}
use sebenza.Service.Ledger.Unrecorded.{convert_streaming-unrecorded}
use sebenza.Tests.Convert.{runner, one_target}
use sebenza.Tests.Service.{item, test_env, test_draft, opened_world}

abbrev projects : List Text
projects = codes "/p" ∷ []

valid : validate_targets to_ascii_lowercase one_target projects ≡ []
unfolding validate_targets validate_from target_errors path_errors is_valid_branch_name
    sanitize_branch_name whitespace_to_dash_from collapse_from is_refused without_at_brace is_edge
    strip_lock is_safe_project_path to_ascii_lowercase ascii_lower text_beq trim trim_matches
    drop_while rev strip_suffix strip_prefix filter is_whitespace is_empty any all contains
    ends_with split_at onto_first is_control
valid = refl

-- A library that writes the branch of an outcome.
abbrev ledger_env : Env Text
ledger_env = record test_env { to_value = λ o. some o.branch }

item-is_ulid : is_ulid item ≡ true
unfolding is_ulid byte_len all contains ends_with split_at onto_first is_control
item-is_ulid = refl

stored : (draft : InboxDraft Text) → lookup item ((item, parsed draft) ∷ []) ≡ some (parsed draft)
unfolding lookup text_beq
stored draft = refl

abbrev readable : Readable item opened_world
readable = record { valid = item-is_ulid; draft = test_draft; found = stored test_draft }

-- The draft as another wave left it, that was recorded while the first one ran.
abbrev overtaken_draft : InboxDraft Text
overtaken_draft = record test_draft {
  frontmatter = record test_draft.frontmatter { conversions = codes "other" ∷ [] };
}

abbrev overtaken_world : World Text
overtaken_world = record opened_world { drafts = (item, parsed overtaken_draft) ∷ [] }

overtaken-Holds :
    Holds item (codes "other" ∷ []) test_draft.frontmatter.status test_draft.body overtaken_world
overtaken-Holds = record {
  readable = record {
    valid = item-is_ulid;
    draft = overtaken_draft;
    found = stored overtaken_draft;
  };
  writable = refl;
  conversions = refl;
  status = refl;
  body = refl;
}

convert_streaming-IsRecorded_example :
    ((w' : World Text) × (convert_streaming ledger_env to_ascii_lowercase projects runner item
          one_target opened_world
        ≡ (ok (wave runner item test_draft one_target), w'))
      × IsRecorded ledger_env item test_draft [] test_draft.frontmatter.status test_draft.body
          (wave runner item test_draft one_target)
          w')
    × (checked_draft to_ascii_lowercase projects item one_target opened_world
        ≡ (ok test_draft, opened_world))
    × ((w' : World Text) × (record_wave ledger_env item test_draft
            (wave runner item test_draft one_target)
            overtaken_world
          ≡ (ok tt, w'))
        × IsRecorded ledger_env item test_draft
            (codes "other" ∷ [])
            test_draft.frontmatter.status
            test_draft.body
            (wave runner item test_draft one_target)
            w')
convert_streaming-IsRecorded_example =
    convert_streaming-IsRecorded ledger_env to_ascii_lowercase projects runner item one_target
      opened_world readable (codes "other" ∷ []) test_draft.frontmatter.status test_draft.body
      overtaken_world overtaken-Holds refl valid

abbrev newer_draft : InboxDraft Text
newer_draft = record test_draft {
  frontmatter = record test_draft.frontmatter { schema_version = ℤ.pos 3 };
}

abbrev newer_world : World Text
newer_world = record opened_world { drafts = (item, parsed newer_draft) ∷ [] }

abbrev newer_readable : Readable item newer_world
newer_readable = record { valid = item-is_ulid; draft = newer_draft; found = stored newer_draft }

convert_streaming-unrecorded_example :
    convert_streaming ledger_env to_ascii_lowercase projects runner item one_target newer_world
    ≡ (ok (wave runner item newer_draft one_target), newer_world)
convert_streaming-unrecorded_example =
    convert_streaming-unrecorded ledger_env item newer_world newer_readable refl to_ascii_lowercase
      projects runner one_target valid

delete_draft-IsDeleted_example :
    Outcome
      (delete_draft item true opened_world)
      (λ _ w'. IsDeleted item true opened_world w')
      (λ _ w'. w' ≡ opened_world)
delete_draft-IsDeleted_example = delete_draft-IsDeleted item true opened_world
