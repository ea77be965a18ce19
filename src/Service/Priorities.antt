-- ===== src/Service/Priorities.antt =====
-- The priorities in crates/common/src/services/inbox_service.rs.
use sebenza.Base.{Text, codes, Option, none, some, ◌==◌, nat_eq, text_eq, if◌then◌else◌}
use sebenza.Draft.{InboxDraft, PrioritySource, Priority, source_eq}
use sebenza.Events.{InboxEvent, InboxEventKind, priority_changed, AuthorKind}
use sebenza.World.{Env, pure, record_audit, ◌>>=◌, ◌>>◌, AuditRecord}
use sebenza.Service.{M, InboxServiceError, of_store, new_audit, with_caller, with_event}
use sebenza.Service.Requests.{parsed_draft}
use sebenza.Store.{by_operator, by_agent, set_priority_by, set_priority}

-- The action that is audited, if any: a change of the value, or of its owner alone.
unfoldable pub priority_action : Option InboxEvent → PrioritySource → PrioritySource → Option Text
priority_action (some _) was is = some (codes "inbox.priority.changed")
priority_action none was is = if was == is then none else elim is [
  | PrioritySource.operator ↦ some (codes "inbox.priority.override_set")
  | PrioritySource.agent ↦ some (codes "inbox.priority.override_cleared")
]

abbrev pub with_event_if : AuditRecord → Option InboxEvent → AuditRecord
with_event_if audit none = audit
with_event_if audit (some event) = with_event audit event

abbrev pub moved_audit : AuditRecord → Priority → Priority → PrioritySource → AuditRecord
moved_audit audit before after source = record audit {
  from = some before;
  to = some after;
  source = some source;
}

-- The audit record of an agent's change.
abbrev pub change_audit : Text → InboxEvent → InboxEventKind → Option AuditRecord
change_audit id event (priority_changed from to source) = some (
    moved_audit
      (with_event (new_audit (codes "inbox.priority.changed") id AuthorKind.system_agent) event)
      from to source)
change_audit id event _ = none

abbrev pub agent_audit_of : Text → Option InboxEvent → Option AuditRecord
agent_audit_of id none = none
agent_audit_of id (some event) = change_audit id event event.kind

module _ {V : Type 0} (env : Env V) where
  -- `InboxService::set_priority`
  unfoldable pub set_operator_priority :
      Text → Option Priority → Option Text → M V InboxServiceError (InboxDraft V)
  set_operator_priority id priority caller = do
    was ← parsed_draft id
    event ← of_store (set_priority_by env id (by_operator priority) caller)
    is ← parsed_draft id
    let fm = is.frontmatter
    let before = was.frontmatter
    elim (priority_action event before.priority_source fm.priority_source) [
      | none ↦ pure is
      | some action ↦ do
        record_audit (
            with_event_if
              (moved_audit (with_caller (new_audit action id AuthorKind.operator) caller)
                before.priority fm.priority fm.priority_source)
              event)
        pure is
    ]

  unfoldable pub audit_agent : Text → Option InboxEvent → M V InboxServiceError Unit
  audit_agent id event = elim (agent_audit_of id event) [
    | none ↦ pure tt
    | some audit ↦ record_audit audit
  ]

  unfoldable pub set_agent_priority : Text → Priority → M V InboxServiceError (Option InboxEvent)
  set_agent_priority id priority = do
    event ← of_store (set_priority env id (by_agent priority))
    audit_agent id event
    pure event
