-- ===== src/Presentation/TradeEvents/Atomicity.antt =====
-- What a failed request of src/presentation/routers/trade_events.py leaves.
use deep_agent_test.Prelude.{ℕ, String, Bool, Option, none, some, ◌≡◌}
use deep_agent_test.Result.{Error, err}
use deep_agent_test.Domain.Entities.{
  TradeModel, TradeWorkflowStatus, EventWorkflowStatus, TradeEventModel, EventType, amend, cancel,
}
use deep_agent_test.Infrastructure.Db.{Db}
use deep_agent_test.Infrastructure.Db.Keeps.{Keeps, keeps_rules}
use deep_agent_test.Infrastructure.Db.Atomic.{
  Saved, Keeps-modify-Saved, Atomic, Atomic-Silent, Atomic-bind, Atomic-with_session, silent_rules,
}
use deep_agent_test.Infrastructure.Runtime.{Runtime}
use deep_agent_test.Infrastructure.TradeRepository.{
  Fields, create_next_version, set_current_row, update_workflow_status, activate_version,
}
use deep_agent_test.Infrastructure.EventRepository.{create, update_status}
use deep_agent_test.Presentation.TradeEvents.{
  TradeEventCreateRequest, EventRequest, create_event, fo_approve, bo_approve, handle, request,
  open_version, create_trade_event, typed, reject, get_event_or_404, fo_approve_event, approve,
  set_initial, bo_approve_event,
}

module _ (rt : Runtime) (d : Db) where
  set_current_row-Saved :
      (t : String) (f : TradeModel → TradeModel) (o : Option TradeModel)
      → Keeps (Saved d) (set_current_row rt t f o)
  set_current_row-Saved t f none = search keeps_rules
  set_current_row-Saved t f (some row) = search (keeps_rules, Keeps-modify-Saved)

  update_workflow_status-Saved :
      (t : String) (status : TradeWorkflowStatus) (f : TradeModel → TradeModel)
      → Keeps (Saved d) (update_workflow_status rt t status f)
  unfolding update_workflow_status
  update_workflow_status-Saved t status f = search (keeps_rules, set_current_row-Saved)

  create_next_version-Saved :
      (t : String) (fields : Option Fields) → Keeps (Saved d) (create_next_version rt t fields)
  unfolding create_next_version
  create_next_version-Saved t fields = search (keeps_rules, Keeps-modify-Saved) depth 40

  activate_version-Saved : (t : String) (v : ℕ) → Keeps (Saved d) (activate_version rt t v)
  unfolding activate_version
  activate_version-Saved t v = search (keeps_rules, Keeps-modify-Saved)

  create-Saved :
      (t : String) (v w : ℕ) (ty : EventType) (by : String) (reason : Option String)
      (fields : Option Fields)
      → Keeps (Saved d) (create rt t v w ty by reason fields)
  unfolding create
  create-Saved t v w ty by reason fields = search (keeps_rules, Keeps-modify-Saved)

  update_status-Saved :
      (id : ℕ) (status : EventWorkflowStatus) → Keeps (Saved d) (update_status rt id status)
  unfolding update_status
  update_status-Saved id status = search Keeps-modify-Saved

  ruleset saved_rules = (
    keeps_rules, Keeps-modify-Saved, update_workflow_status-Saved, create_next_version-Saved,
    activate_version-Saved, create-Saved, update_status-Saved,
  )

  open_version-Saved :
      (t : String) (v : ℕ) (fields : Option Fields) (ty : EventType)
      → Keeps (Saved d) (open_version rt t v fields ty)
  unfolding open_version
  open_version-Saved t v fields amend = search saved_rules depth 12
  open_version-Saved t v fields cancel = search saved_rules depth 12

  reject-Saved : (event : TradeEventModel) → Keeps (Saved d) (reject rt event)
  unfolding reject
  reject-Saved event = search saved_rules depth 12

  set_initial-Saved :
      (t : String) (v : ℕ) (o : Option TradeModel) → Keeps (Saved d) (set_initial rt t v o)
  unfolding set_initial
  set_initial-Saved t v none = search saved_rules
  set_initial-Saved t v (some row) = search saved_rules

  approve-Saved : (event : TradeEventModel) (ty : EventType) → Keeps (Saved d) (approve rt event ty)
  unfolding approve
  approve-Saved event amend = search (saved_rules, set_initial-Saved) depth 12
  approve-Saved event cancel = search saved_rules depth 12

ruleset atomic_rules = (
  Atomic-bind, Atomic-Silent, silent_rules, keeps_rules, open_version-Saved, create-Saved,
  reject-Saved, approve-Saved, update_status-Saved,
)

module _ (rt : Runtime) where
  create_trade_event-Atomic :
      (t : String) (body : TradeEventCreateRequest) → Atomic (create_trade_event rt t body)
  unfolding create_trade_event typed
  create_trade_event-Atomic t body = search atomic_rules depth 30

  fo_approve_event-Atomic : (id : ℕ) (approved : Bool) → Atomic (fo_approve_event rt id approved)
  unfolding fo_approve_event get_event_or_404
  fo_approve_event-Atomic id approved = search atomic_rules depth 30

  bo_approve_event-Atomic : (id : ℕ) (approved : Bool) → Atomic (bo_approve_event rt id approved)
  unfolding bo_approve_event get_event_or_404
  bo_approve_event-Atomic id approved = search atomic_rules depth 30

  handle-Atomic : (r : EventRequest) → Atomic (handle rt r)
  unfolding handle
  handle-Atomic (create_event t body) = create_trade_event-Atomic t body
  handle-Atomic (fo_approve id approved) = fo_approve_event-Atomic id approved
  handle-Atomic (bo_approve id approved) = bo_approve_event-Atomic id approved

-- A request that creates, approves or rejects an event and ends in an error, whichever, leaves
-- every table of the database as it was.
pub request_atomic :
    (rt : Runtime) (r : EventRequest) (db : Db) (e : Error)
    → (request rt r db).0 ≡ err e
    → (request rt r db).1 ≡ db
unfolding request
request_atomic rt r db e h = Atomic-with_session (handle rt r) db e (handle-Atomic rt r) h
