-- ===== src/Store/Prioritise.antt =====
-- `set_priority_by` of crates/common/src/adapters/inbox_store.rs: the priority of a draft and the event
-- that records a change of it.
use sebenza.Base.{
  sym, Text, ◌≡◌, refl, ap, ◌∙◌, true, false, Bool, Option, none, some, [], ◌∷◌, ◌++◌, ◌==◌, ◌&&◌,
  lookup, insert, lookup-insert_same, arith,
}
use sebenza.Draft.{
  raw, InboxDraft, InboxDraftView, Priority, PrioritySource, parsed, priority_eq, source_eq,
}
use sebenza.Events.{InboxEvent, priority_changed}
use sebenza.World.{World, Env}
use sebenza.World.Outcome.{Outcome, Outcome-bind, Outcome-if, Outcome-elim}
use sebenza.Service.Reads.{appended, after_append, log_of, Outcome-append_event}
use sebenza.Store.{EventAuthor, PriorityWrite, by_agent, priority_target, set_priority_by}
use sebenza.Store.Writes.{Outcome-require_writable, at_version}

module _ {V : Type 0} (env : Env V) (id : Text) (write : PriorityWrite) (w : World V) where
  -- What the write asks for is what the draft has, or the agent asks and an operator has spoken.
  abbrev pub asks_nothing : InboxDraft V → Option (Priority × PrioritySource × EventAuthor) → Bool
  asks_nothing d none = true
  asks_nothing d (some (to, source, _)) =
      to == d.frontmatter.priority && source == d.frontmatter.priority_source

  -- The draft with this priority and source.
  abbrev pub with_priority : Priority → PrioritySource → Text → InboxDraft V → InboxDraft V
  with_priority to source at d = record (at_version d) {
    frontmatter = record (at_version d).frontmatter {
      priority = to;
      priority_source = source;
      updated_at = at;
    };
  }

  -- The draft that is written, whatever becomes of the log.
  pub record Written (d : InboxDraft V) (to : Priority) (source : PrioritySource) (w' : World V)
      : Type 0 where
    pub found : lookup id w.drafts ≡ some (parsed d)
    pub author : EventAuthor
    pub asked : priority_target env (at_version d).frontmatter write ≡ some (to, source, author)
    pub at : Text
    pub is : lookup id w'.drafts ≡ some (parsed (with_priority to source at d))

  -- The answer to a priority write: nothing was to do; or the source alone changed; or the priority
  -- changed, and one event of the log says from what to what and by whom.
  pub data Prioritised : Option InboxEvent → World V → Type 0 where
    kept :
        (d : InboxDraft V)
        → lookup id w.drafts ≡ some (parsed d)
        → asks_nothing d (priority_target env (at_version d).frontmatter write) ≡ true
        → Prioritised none w
    marked :
        (w' : World V) (d : InboxDraft V) (to : Priority) (source : PrioritySource)
        → Written d to source w'
        → (to == d.frontmatter.priority) ≡ true
        → w'.logs ≡ w.logs
        → Prioritised none w'
    changed :
        (e : InboxEvent) (w' : World V) (d : InboxDraft V) (to : Priority) (source : PrioritySource)
        → Written d to source w'
        → (to == d.frontmatter.priority) ≡ false
        → e.kind ≡ priority_changed d.frontmatter.priority to source
        → w'.logs ≡ insert id (log_of id w ++ e ∷ []) w.logs
        → Prioritised (some e) w'

  -- A priority write either fails and changes nothing at all; or nothing was to do, and nothing
  -- changes; or the draft alone takes the new source; or the draft takes the new priority and source,
  -- and the log one event, which says from which priority to which, and by which source.
  pub set_priority_by-Prioritised :
      (caller : Option Text)
      → Outcome (set_priority_by env id write caller w) Prioritised (λ _ w'. w' ≡ w)
  unfolding set_priority_by appended after_append
  set_priority_by-Prioritised caller = Outcome-bind _ _ w _ _ (
      Outcome-require_writable id w _ _ (λ _. refl)
        λ d valid found known.
          Outcome-elim w _ _ (priority_target env (at_version d).frontmatter write) _ _
            (λ asked. kept d found (ap (asks_nothing d) asked))
            λ (to, source, author) asked.
              let written : (w' : World V)
                  → lookup id w'.drafts
                    ≡ some (parsed (with_priority to source (env.now_rfc3339 w.clock_reads) d))
                  → Written d to source w' =
                λ w' is. record {
                  found = found;
                  author = author;
                  asked = asked;
                  at = env.now_rfc3339 w.clock_reads;
                  is = is;
                } in
              Outcome-if w _ _
                (to == d.frontmatter.priority && source == d.frontmatter.priority_source) _ _
                (λ same. kept d found (ap (asks_nothing d) asked ∙ same))
                λ differs. Outcome-bind _ _ w _ _ (
                  Outcome-bind _ _ _ _ _ (
                    Outcome-if _ _ _ (to == d.frontmatter.priority) _ _
                      (λ same.
                        marked _ d to source (written _ (lookup-insert_same id _ w.drafts)) same
                          refl)
                      λ new. Outcome-bind _ _ _ _ _ (
                        Outcome-append_event env id _ _ _ _ _ _
                          (record {
                            valid = valid;
                            draft = _;
                            found = lookup-insert_same id _ w.drafts;
                          })
                          (changed _ _ d to source (written _ (lookup-insert_same id _ w.drafts))
                            new refl refl)))))

-- Whether the draft that a reader finds has a priority that an operator set.
abbrev pub is_operators : {V : Type 0} → Option (InboxDraftView V) → Bool
is_operators none = false
is_operators (some (parsed d)) = d.frontmatter.priority_source == PrioritySource.operator
is_operators (some (raw _ _ _)) = false

never_asked :
    {V : Type 0} (env : Env V) (p : Priority) (d : InboxDraft V)
    (target : Priority × PrioritySource × EventAuthor)
    → is_operators (some (parsed d)) ≡ true
    → priority_target env (at_version d).frontmatter (by_agent p) ≡ some target
    → ⊥
unfolding priority_target
never_asked env p d target own asked = ground (arith, own, asked)

-- The agent's priority for a draft whose priority an operator set is ignored: whether the write
-- succeeds or fails, nothing at all changes, and a success answers with no event.
set_priority_by-is_operators :
    {V : Type 0} (env : Env V) (id : Text) (p : Priority) (caller : Option Text) (w : World V)
    → is_operators (lookup id w.drafts) ≡ true
    → Outcome
        (set_priority_by env id (by_agent p) caller w)
        (λ o w'. (o ≡ none) × (w' ≡ w))
        (λ _ w'. w' ≡ w)
unfolding set_priority_by
set_priority_by-is_operators env id p caller w theirs = Outcome-bind _ _ w _ _ (
    Outcome-require_writable id w _ _ (λ _. refl)
      λ d valid found known.
        Outcome-elim w _ _ (priority_target env (at_version d).frontmatter (by_agent p)) _ _
          (λ _. (refl, refl))
          λ target asked.
            elim (never_asked env p d target (sym (ap is_operators found) ∙ theirs) asked) [ ])
