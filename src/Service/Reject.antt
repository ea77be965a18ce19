-- ===== src/Service/Reject.antt =====
-- The operator's rejection of a request, and the redaction of an event, of
-- crates/common/src/services/inbox_service.rs.
use sebenza.Base.{[], Text, ◌≡◌, true, none, some}
use sebenza.Events.{InboxEvent, RequestView, RequestStatus}
use sebenza.Events.Fold.Redaction.{lifecycle}
use sebenza.World.{World, Env}
use sebenza.World.Outcome.{Outcome}
use sebenza.Service.Views.{view_of}
use sebenza.Service.Effects.{Wrote}
use sebenza.Service.Decisions.{is_rejectable}

module _ {V : Type 0} (env : Env V) (id rid : Text) (w : World V) where
  -- The view of a request once it is rejected.
  abbrev pub reopened : Text → RequestView → RequestView
  reopened reason v = record v {
    status = RequestStatus.opened;
    proposal_id = none;
    proposal = none;
    proposal_hash = none;
    proposal_warnings = [];
    last_reason = some reason;
  }

  -- A rejection that went through: the answer `v'` is what a reader now sees.
  pub record Reopened (reason : Text) (v' : RequestView) (w' : World V) : Type 0 where
    pub view : RequestView
    pub was : view_of env id rid w ≡ some view
    pub allowed : is_rejectable view.status ≡ true
    pub event : InboxEvent
    pub written : Wrote id event w w'
    pub shown : view_of env id rid w' ≡ some v'
    pub state : lifecycle v' ≡ lifecycle (reopened reason view)
