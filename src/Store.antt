-- ===== src/Store.antt =====
-- crates/common/src/adapters/inbox_store.rs: drafts and event logs. The files are the maps of `World`,
-- already parsed; I/O errors other than a missing file are not modelled. The path lock makes each
-- method one action.
pub mod Ownership
pub mod Prioritise
pub mod Writes
use sebenza.Base.{
  nat_eq, ℕ, ◌+◌, ◌-◌, ℤ, ℤ.pos, nat_ltb_ℤ, Text, codes, Bool, true, false, not, ◌&&◌, ◌||◌, Option,
  none, some, List, [], ◌∷◌, ◌++◌, ◌==◌, text_eq, all, contains, byte_len, lookup, insert, remove,
  is_some, unwrap_or, or_else, leb, if◌then◌else◌,
}
use sebenza.Draft.{
  InboxDraft, InboxDraftFrontmatter, InboxDraftView, DraftStatus, Priority, PrioritySource,
  ProjectRef, parsed, raw, promoted, p2, priority_eq, source_eq, status_eq,
}
use sebenza.Events.{
  InboxEvent, InboxEventKind, AuthorKind, operator, worktree_agent, system_agent, priority_changed,
}
use sebenza.World.{
  World, Env, M, Result, ok, err, AgentSession, pure, raise, gets, modify, refuse_if, ◌>>=◌, ◌>>◌,
  fresh_ulid, now,
}

abbrev pub inbox_event_schema_version : ℤ
inbox_event_schema_version = ℤ.pos 1

abbrev pub inbox_draft_schema_version : ℕ
inbox_draft_schema_version = 2

pub data InboxStoreError : Type 0 where
  not_found invalid_id : Text → InboxStoreError
  -- id, error
  unparsed : Text → Text → InboxStoreError
  -- id, expected, actual
  conflict : Text → Text → Text → InboxStoreError
  -- id, version
  unsupported_version : Text → ℤ → InboxStoreError

pub data PriorityWrite : Type 0 where
  by_operator : Option Priority → PriorityWrite
  by_agent : Priority → PriorityWrite

pub record EventAuthor : Type 0 where
  pub kind : AuthorKind
  pub caller : Option Text

abbrev pub operator_author : EventAuthor
operator_author = record { kind = operator; caller = none }

abbrev pub system_agent_author : EventAuthor
system_agent_author = record { kind = system_agent; caller = none }

abbrev pub worktree_agent_author : EventAuthor
worktree_agent_author = record { kind = worktree_agent; caller = some (codes "worktree") }

pub data FrontmatterAuthor : Type 0 where
  editor job : FrontmatterAuthor

pub record FrontmatterPatch (V : Type 0) : Type 0 where
  pub title : Option Text
  pub project : Option (Option ProjectRef)
  pub status : Option DraftStatus
  pub conversions : Option (List V)

abbrev pub default_patch : {V : Type 0} → FrontmatterPatch V
default_patch = record { title = none; project = none; status = none; conversions = none }

-- util/id.rs, `is_ulid`: 26 bytes of Crockford's base 32, in either case
abbrev pub to_ascii_uppercase : ℕ → ℕ
to_ascii_uppercase c = if leb b'a' c && leb c b'z' then c - 32 else c

unfoldable pub is_ulid : Text → Bool
is_ulid s =
    byte_len s == 26
    && all (λ c. contains (codes "0123456789ABCDEFGHJKMNPQRSTVWXYZ") (to_ascii_uppercase c)) s

-- `apply_patch`
unfoldable pub apply_patch :
    {V : Type 0}
    → InboxDraftFrontmatter V
    → FrontmatterAuthor
    → FrontmatterPatch V
    → InboxDraftFrontmatter V
apply_patch fm editor patch = record fm {
  title = unwrap_or patch.title fm.title;
  project = unwrap_or patch.project fm.project;
  status = elim patch.status [
    | none ↦ fm.status
    | some status ↦
        if not (fm.status == promoted) && not (status == promoted) then status else fm.status
  ];
}
apply_patch fm job patch = record fm {
  conversions = unwrap_or patch.conversions fm.conversions;
  status = elim patch.status [
    | none ↦ fm.status
    | some status ↦ if status == promoted then promoted else fm.status
  ];
}

module _ {V : Type 0} where
  -- `atomic_write`
  abbrev pub write_draft : Text → InboxDraft V → M V InboxStoreError Unit
  write_draft id draft = modify (λ w. record w { drafts = insert id (parsed draft) w.drafts })

  -- `read_view`, `get`
  unfoldable pub get : Text → M V InboxStoreError (InboxDraftView V)
  get id = do
    refuse_if (not (is_ulid id)) (invalid_id id)
    found ← gets (λ w. lookup id w.drafts)
    elim found [ none ↦ raise (not_found id) | some view ↦ pure view ]

  unfoldable pub require_parsed : Text → M V InboxStoreError (InboxDraft V)
  require_parsed id = do
    view ← get id
    elim view [ parsed draft ↦ pure draft | raw _ _ error ↦ raise (unparsed id error) ]

  unfoldable pub require_writable : Text → M V InboxStoreError (InboxDraft V)
  require_writable id = do
    draft ← require_parsed id
    refuse_if (nat_ltb_ℤ inbox_draft_schema_version draft.frontmatter.schema_version)
        (unsupported_version id draft.frontmatter.schema_version)
    pure (record draft {
      frontmatter = record draft.frontmatter { schema_version = ℤ.pos inbox_draft_schema_version };
    })

  unfoldable pub delete : Text → M V InboxStoreError Unit
  delete id = do
    refuse_if (not (is_ulid id)) (invalid_id id)
    exists ← gets (λ w. is_some (lookup id w.drafts))
    refuse_if (not exists) (not_found id)
    modify (λ w. record w {
      drafts = remove id w.drafts;
      logs = remove id w.logs;
      sessions = remove id w.sessions;
    })

  unfoldable pub read_events : Text → M V InboxStoreError (List InboxEvent)
  read_events id = do
    refuse_if (not (is_ulid id)) (invalid_id id)
    gets (λ w. unwrap_or (lookup id w.logs) [])

  unfoldable pub read_session : Text → M V InboxStoreError (Option AgentSession)
  read_session id = do
    refuse_if (not (is_ulid id)) (invalid_id id)
    gets (λ w. lookup id w.sessions)

  unfoldable pub write_session : Text → AgentSession → M V InboxStoreError Unit
  write_session id session = do
    refuse_if (not (is_ulid id)) (invalid_id id)
    modify (λ w. record w { sessions = insert id session w.sessions })

module _ {V : Type 0} (env : Env V) where
  unfoldable pub create : Text → M V InboxStoreError (InboxDraft V)
  create title = do
    id ← fresh_ulid env
    at ← now env
    let draft : InboxDraft V = record {
      id = id;
      frontmatter = record {
        schema_version = ℤ.pos inbox_draft_schema_version;
        title = title;
        project = none;
        status = DraftStatus.draft;
        created_at = at;
        updated_at = at;
        conversions = [];
        priority = p2;
        priority_source = PrioritySource.agent;
        extra = [];
      };
      body = [];
    }
    write_draft id draft
    pure draft

  -- The new body, and the time of the write.
  abbrev pub rewrite_body : Text → InboxDraft V → Text → M V InboxStoreError (InboxDraft V)
  rewrite_body id draft body = do
    at ← now env
    let written = record draft {
      body = body;
      frontmatter = record draft.frontmatter { updated_at = at };
    }
    write_draft id written
    pure written

  unfoldable pub save_body : Text → Text → Text → M V InboxStoreError (InboxDraft V)
  save_body id expected_hash body = do
    draft ← require_writable id
    let actual = env.sha1_hex draft.body
    refuse_if (not (actual == expected_hash)) (conflict id expected_hash actual)
    rewrite_body id draft body

  unfoldable pub force_write_body : Text → Text → M V InboxStoreError (InboxDraft V)
  force_write_body id body = do draft ← require_writable id; rewrite_body id draft body

  unfoldable pub merge_frontmatter :
      Text → FrontmatterAuthor → FrontmatterPatch V → M V InboxStoreError (InboxDraft V)
  merge_frontmatter id author patch = do
    draft ← require_writable id
    at ← now env
    let merged = record draft {
      frontmatter = record (apply_patch draft.frontmatter author patch) { updated_at = at };
    }
    write_draft id merged
    pure merged

  unfoldable pub append_event :
      Text → EventAuthor → Option Text → InboxEventKind → M V InboxStoreError InboxEvent
  append_event id author parent_event_id kind = do
    refuse_if (not (is_ulid id)) (invalid_id id)
    exists ← gets (λ w. is_some (lookup id w.drafts))
    refuse_if (not exists) (not_found id)
    event_id ← fresh_ulid env
    ts ← now env
    let event : InboxEvent = record {
      schema_version = inbox_event_schema_version;
      event_id = event_id;
      ts = ts;
      author = author.kind;
      caller = author.caller;
      parent_event_id = parent_event_id;
      kind = kind;
    }
    modify
        (λ w. record w { logs = insert id (unwrap_or (lookup id w.logs) [] ++ event ∷ []) w.logs })
    pure event

  -- The value, the source and the author of a priority write; `none` where an operator's override
  -- stands against the agent.
  unfoldable pub priority_target :
      InboxDraftFrontmatter V → PriorityWrite → Option (Priority × PrioritySource × EventAuthor)
  priority_target fm (by_operator (some p)) = some (p, PrioritySource.operator, operator_author)
  priority_target fm (by_operator none) = some (fm.priority, PrioritySource.agent, operator_author)
  priority_target fm (by_agent p) =
      if fm.priority_source == PrioritySource.operator
      then none
      else some (p, PrioritySource.agent, system_agent_author)

  unfoldable pub set_priority_by :
      Text → PriorityWrite → Option Text → M V InboxStoreError (Option InboxEvent)
  set_priority_by id write caller = do
    draft ← require_writable id
    let from = draft.frontmatter.priority
    elim (priority_target draft.frontmatter write) [
      | none ↦ pure none
      | some (to, source, author) ↦
          if to == from && source == draft.frontmatter.priority_source then pure none else do
            at ← now env
            write_draft id (record draft {
              frontmatter = record draft.frontmatter {
                priority = to;
                priority_source = source;
                updated_at = at;
              };
            })
            if to == from then pure none else do
              event ←
                  append_event id (record author { caller = or_else caller author.caller }) none
                    (priority_changed from to source)
              pure (some event)
    ]

  unfoldable pub set_priority : Text → PriorityWrite → M V InboxStoreError (Option InboxEvent)
  set_priority id write = set_priority_by id write none
