-- ===== src/Tests/Open.antt =====
-- A worktree of a converted item opens a request.
use sebenza.Service.Reads.{Readable, log_of}
use sebenza.Base.{
  ◌++◌, Bool, Text, codes, ◌≡◌, refl, true, false, List, [], ◌∷◌, none, some, ℤ, lookup, byte_len,
  all, contains, text_beq, trim, trim_matches, rev, drop_while, ◌==◌,
}
use sebenza.Draft.{parsed, status_eq}
use sebenza.Events.{
  Thread, InboxEvent, request_opened, proposal, resolution_confirmed, delivery_failed,
}
use sebenza.Limits.{default_limits}
use sebenza.Store.{
  operator_author, worktree_agent_author, by_operator, by_agent, set_priority_by, is_ulid,
  default_patch, FrontmatterPatch, apply_patch, editor, job, save_body,
}
use sebenza.World.{err, Result, Env, World, ok}
use sebenza.World.Outcome.{Outcome}
use sebenza.Service.Effects.{SameStore}
use sebenza.Service.Requests.{admit_request, take_request, add_comment, open_request}
use sebenza.Service.{InboxServiceError}
use sebenza.Service.Comment.{Commented, add_comment-Commented}
use sebenza.Service.Open.{Opened, open_request-Opened}
use sebenza.Convert.{ConversionTarget, outcome_created}
use sebenza.Tests.Events.{event, wt}
use sebenza.Tests.Service.{rid, item, test_env, test_draft, opened_world}

-- The item once converted into the worktree `b` of the project `/p`.
abbrev target : ConversionTarget
target = record {
  project_path = codes "/p";
  branch = codes "b";
  base_branch = none;
  agent_id = none;
  prompt = codes "do it";
  system_instruction = none;
  architect_first = none;
}

abbrev pub converted_env : Env Text
converted_env = record test_env {
  from_value = λ _. some (outcome_created target (codes "/p/b") (codes "t"));
}

abbrev pub converted_world : World Text
converted_world = record opened_world {
  drafts =
      (
        item,
        parsed (record test_draft {
          frontmatter = record test_draft.frontmatter { conversions = codes "c" ∷ [] };
        }),
      )
      ∷ [];
}

-- What another worktree appends while the request is checked.
abbrev others : List InboxEvent
others = event (codes "e9") (request_opened (codes "r9") wt (codes "t") (codes "b") []) ∷ []

abbrev between : World Text
between = record converted_world {
  logs =
      (item, event (codes "e1") (request_opened rid wt (codes "title") (codes "body") []) ∷ others)
      ∷ [];
}

between-Readable : Readable item between
unfolding is_ulid lookup byte_len all contains text_beq
between-Readable = record {
  valid = refl;
  draft = record test_draft {
    frontmatter = record test_draft.frontmatter { conversions = codes "c" ∷ [] };
  };
  found = refl;
}

between-log : log_of item between ≡ log_of item converted_world ++ others
unfolding lookup text_beq
between-log = refl

open_request-Opened_example :
    Outcome
      (open_request converted_env item worktree_agent_author wt
        (codes "help")
        (codes "me")
        converted_world)
      (λ e w'.
        (w1 : World Text) × SameStore converted_world w1
        × Opened converted_env item wt (trim (codes "help")) (codes "me") converted_world 0 w1 e w')
      (λ _ w'. SameStore converted_world w')
    × Outcome
        (admit_request converted_env item worktree_agent_author wt
          (trim (codes "help"))
          (codes "me")
          converted_world)
        (λ _ _.
          Outcome
            (take_request converted_env item worktree_agent_author wt
              (trim (codes "help"))
              (codes "me")
              between)
            (Opened converted_env item wt
              (trim (codes "help"))
              (codes "me")
              converted_world
              1
              between)
            (λ _ _. ⊥))
        (λ _ w'. SameStore converted_world w')
open_request-Opened_example =
    open_request-Opened converted_env item wt (codes "help") (codes "me") converted_world
      worktree_agent_author others between between-Readable between-log

add_comment-Commented_example :
    Outcome
      (add_comment converted_env item operator_author
        (Thread.worktree wt)
        (codes "hi")
        converted_world)
      (Commented converted_env item (Thread.worktree wt) (codes "hi") converted_world)
      (λ _ w'. SameStore converted_world w')
add_comment-Commented_example =
    add_comment-Commented converted_env item (Thread.worktree wt) (codes "hi") converted_world
      operator_author

-- Whether the request was taken.
is_taken : Result InboxServiceError InboxEvent × World Text → Bool
is_taken (ok _, _) = true
is_taken (err _, _) = false

request-taken :
    is_taken (
      open_request converted_env item worktree_agent_author wt
        (codes "help")
        (codes "me")
        converted_world)
    ≡ true
unfolding open_request admit_request take_request is_taken sebenza.World.◌>>=◌
    sebenza.Service.Requests.events sebenza.Service.Requests.parsed_draft sebenza.World.map_err
    sebenza.Store.get sebenza.World.refuse_if sebenza.Store.is_ulid sebenza.Base.byte_len
    sebenza.Base.all sebenza.Base.contains sebenza.Base.lookup sebenza.Base.text_beq
    sebenza.Store.read_events sebenza.Service.find_request sebenza.World.or_raise
    sebenza.Events.Fold.find_view sebenza.Base.find sebenza.Base.is_empty sebenza.Base.is_whitespace
    sebenza.Base.trim sebenza.Base.trim_end_matches sebenza.Base.trim_matches sebenza.Base.insert
    sebenza.Base.drop_while sebenza.Base.filter_map sebenza.Base.find_map sebenza.Base.rev
    sebenza.Events.Fold.apply_kind sebenza.Events.Fold.fold_from sebenza.Events.Fold.fold_kind
    sebenza.Events.Fold.fold_requests sebenza.Events.Fold.is_undecided
    sebenza.Events.Fold.modify_first sebenza.Events.apply_redactions sebenza.Events.mask_event
    sebenza.Events.mask_kind sebenza.Events.redacted_body sebenza.Events.redaction_targets
    sebenza.Events.request_id_of sebenza.Service.opened_event_id sebenza.Service.proposal_event_id
    sebenza.Service.status_name sebenza.Store.append_event sebenza.Service.Requests.open_count
    sebenza.Service.worktree_keys sebenza.Service.created_conversions sebenza.Service.collect_keys
    sebenza.Convert.is_created sebenza.Base.filter sebenza.Service.Requests.request_allowed
    sebenza.Limits.allow_at sebenza.Limits.hit sebenza.Limits.evict sebenza.Service.rate_key
    outcome_created sebenza.Limits.default_limits sebenza.Service.Requests.is_unresolved
    sebenza.Events.key_beq
request-taken = refl
