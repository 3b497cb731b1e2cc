-- ===== src/Presentation/TradeEvents.antt =====
-- src/presentation/routers/trade_events.py: the life of an amendment or a cancellation. A handler
-- is an action of a session; `request` runs it in a session of its own.
mod Writes
pub mod Atomicity
pub mod Guards
pub mod Moves
pub mod Lifecycle
pub mod Activation
pub mod Rejection
pub mod Creation
pub mod Validity
use deep_agent_test.Prelude.{
  ℕ, ◌≡◌, String, Bool, true, false, not, ◌&&◌, Option, none, some, List, [], ◌∷◌, length,
  find_first, delete_where, update_first, text_eq, if◌then◌else◌,
}
use deep_agent_test.Result.{Result, ok, err, http}
use deep_agent_test.Domain.Entities.{
  TradeModel, TradeWorkflowStatus, TradeEventModel, EventType, amend, cancel, EventWorkflowStatus,
}
use deep_agent_test.Infrastructure.Db.{
  Db, Session, Exec, with_session, or_raise, raise_if, raise_if_some, pure, gets, modify, commit,
  attempt, ◌>>=◌, ◌>>◌,
}
use deep_agent_test.Infrastructure.Runtime.{Runtime}
use deep_agent_test.Infrastructure.TradeRepository.{
  Fields, is_current_of, has_version, get_current, create_next_version, activate_version,
  update_workflow_status,
}
use deep_agent_test.Infrastructure.TradeRepository.Listing.{list_for_trade}
use deep_agent_test.Infrastructure.EventRepository.{
  has_id, get_pending, get_event, create, update_status,
}
use deep_agent_test.Infrastructure.RuleEngine.{maybe_run_fo_check}

-- `TradeEventCreateRequest`
pub record TradeEventCreateRequest : Type 0 where
  pub event_type : String
  pub reason : String
  pub requested_by : String
  pub amended_fields : Option Fields

abbrev pub is_event_pending : TradeWorkflowStatus → Bool
is_event_pending TradeWorkflowStatus.event_pending = true
is_event_pending _ = false

abbrev pub is_amend : EventType → Bool
is_amend amend = true
is_amend cancel = false

abbrev pub awaits_fo : EventWorkflowStatus → Bool
awaits_fo EventWorkflowStatus.fo_user_to_validate = true
awaits_fo _ = false

abbrev pub awaits_bo : EventWorkflowStatus → Bool
awaits_bo EventWorkflowStatus.fo_validated = true
awaits_bo _ = false

-- `_get_event_or_404`
unfoldable pub get_event_or_404 : ℕ → Exec TradeEventModel
get_event_or_404 id = do row ← get_event id; or_raise row (http 404)

pub get_event_found :
    (id : ℕ) (event : TradeEventModel) (s : Session)
    → find_first (has_id id) s.work.events ≡ some event
    → get_event_or_404 id s ≡ (ok event, s)
unfolding get_event_or_404 ◌>>=◌
get_event_found id event s e = rw e

pub get_event_missing :
    (id : ℕ) (s : Session)
    → find_first (has_id id) s.work.events ≡ none
    → get_event_or_404 id s ≡ (err (http 404), s)
unfolding get_event_or_404 ◌>>=◌
get_event_missing id s e = rw e

-- `db.refresh(event)`
abbrev refreshed : TradeEventModel → Option TradeEventModel → TradeEventModel
refreshed event none = event
refreshed event (some row) = row

abbrev pub refresh : TradeEventModel → Exec TradeEventModel
refresh event = gets (λ db. refreshed event (find_first (has_id event.id) db.events))

-- The version that an AMEND event leaves behind until it is approved.
abbrev pub pending_version : String → ℕ → TradeModel → Bool
pending_version trade_id version row = has_version trade_id version row && not row.is_current

-- `onupdate` of the column sets `updated_at` where an assignment changes the row.
abbrev pub restore : ℕ → TradeModel → TradeModel
restore now row =
    if is_event_pending row.workflow_status
    then record row { workflow_status = TradeWorkflowStatus.fo_agent_to_check; updated_at = now }
    else row

-- `EventPending` rows that are not current: the query for `pending_ver`.
abbrev pub is_pending_version : String → TradeModel → Bool
is_pending_version trade_id row =
    text_eq row.trade_id trade_id && (not row.is_current && is_event_pending row.workflow_status)

abbrev pub lacks_fields : Option Fields → Bool
lacks_fields none = true
lacks_fields (some []) = true
lacks_fields (some (f ∷ fs)) = false

-- The test of `event_type` against its two values.
abbrev pub event_type_of : String → Option EventType
event_type_of s =
    if text_eq s "AMEND" then some amend else if text_eq s "CANCEL" then some cancel else none

unfoldable pub list_trade_events : String → Exec (List TradeEventModel × ℕ)
unfolding list_for_trade
list_trade_events trade_id = do rows ← list_for_trade trade_id; pure (rows, length rows)

module _ (rt : Runtime) where
  -- The part of `create_trade_event` that depends on the type: the version that the event leads to.
  pub open_version : String → ℕ → Option Fields → EventType → Exec ℕ
  open_version trade_id from_version fields amend = do
    pending_ver ← gets (λ db. find_first (is_pending_version trade_id) db.trades)
    raise_if_some pending_ver (http 409)
    new_row ← create_next_version rt trade_id fields
    update_workflow_status rt trade_id TradeWorkflowStatus.event_pending (λ row. row)
    pure new_row.version
  open_version trade_id from_version fields cancel = do
    update_workflow_status rt trade_id TradeWorkflowStatus.event_pending (λ row. row)
    pure from_version

  -- `create_trade_event` from the look for an event in flight to its end.
  pub book : String → TradeEventCreateRequest → EventType → TradeModel → Exec TradeEventModel
  unfolding open_version
  book trade_id body event_type current = do
    existing ← get_pending trade_id
    raise_if_some existing (http 409)
    to_version ← open_version trade_id current.version body.amended_fields event_type
    event ←
        create rt trade_id current.version to_version event_type body.requested_by
          (some body.reason) body.amended_fields
    commit
    refresh event

  -- What follows the test of the event type.
  pub typed : String → TradeEventCreateRequest → EventType → Exec TradeEventModel
  unfolding book
  typed trade_id body event_type = do
    raise_if (is_amend event_type && lacks_fields body.amended_fields) (http 422)
    found ← get_current trade_id
    current ← or_raise found (http 404)
    book trade_id body event_type current

  unfoldable pub create_trade_event : String → TradeEventCreateRequest → Exec TradeEventModel
  unfolding typed
  create_trade_event trade_id body = do
    event_type ← or_raise (event_type_of body.event_type) (http 422)
    typed trade_id body event_type

  -- `_cancel_pending_version`
  unfoldable pub cancel_pending_version : String → ℕ → Exec (Unit {0})
  cancel_pending_version trade_id to_version = do
    modify
        (λ db. record db { trades = delete_where (pending_version trade_id to_version) db.trades })
    modify (λ db. record db {
      trades = update_first (is_current_of trade_id) (restore rt.now) db.trades;
    })

  pub reject : TradeEventModel → Exec (Unit {0})
  unfolding cancel_pending_version
  reject event = do
    update_status rt event.id EventWorkflowStatus.cancelled
    if is_amend event.event_type
        then cancel_pending_version event.trade_id event.to_version
        else pure tt

  pub fo_decide : TradeEventModel → Bool → Exec (Unit {0})
  unfolding reject
  fo_decide event approved =
      if approved then update_status rt event.id EventWorkflowStatus.fo_validated else reject event

  unfoldable pub fo_approve_event : ℕ → Bool → Exec TradeEventModel
  unfolding fo_decide
  fo_approve_event event_id approved = do
    event ← get_event_or_404 event_id
    raise_if (not (awaits_fo event.workflow_status)) (http 409)
    fo_decide event approved
    commit
    refresh event

  abbrev pub initial_row : TradeModel → TradeModel
  initial_row row = record row { workflow_status = TradeWorkflowStatus.initial }

  -- `activated.workflow_status = "Initial"`, if the version was there.
  pub set_initial : String → ℕ → Option TradeModel → Exec (Unit {0})
  set_initial trade_id version none = pure tt
  set_initial trade_id version (some row) =
      modify λ db. record db {
        trades = update_first (has_version trade_id version) initial_row db.trades;
      }

  pub approve : TradeEventModel → EventType → Exec (Unit {0})
  unfolding set_initial
  approve event amend = do
    update_status rt event.id EventWorkflowStatus.done
    activated ← activate_version rt event.trade_id event.to_version
    set_initial event.trade_id event.to_version activated
  approve event cancel = do
    update_status rt event.id EventWorkflowStatus.done
    update_workflow_status rt event.trade_id TradeWorkflowStatus.cancelled (λ row. row)
    pure tt

  pub bo_decide : TradeEventModel → Bool → Exec (Unit {0})
  unfolding approve reject
  bo_decide event approved = if approved then approve event event.event_type else reject event

  unfoldable pub bo_approve_event : ℕ → Bool → Exec TradeEventModel
  unfolding bo_decide
  bo_approve_event event_id approved = do
    event ← get_event_or_404 event_id
    raise_if (not (awaits_bo event.workflow_status)) (http 409)
    bo_decide event approved
    commit
    out ← refresh event
    if approved && is_amend event.event_type
        then attempt (maybe_run_fo_check rt event.trade_id)
        else pure tt
    pure out

-- The three requests of the router that write.
pub data EventRequest : Type 0 where
  create_event : String → TradeEventCreateRequest → EventRequest
  fo_approve : ℕ → Bool → EventRequest
  bo_approve : ℕ → Bool → EventRequest

unfoldable pub handle : Runtime → EventRequest → Exec TradeEventModel
handle rt (create_event trade_id body) = create_trade_event rt trade_id body
handle rt (fo_approve event_id approved) = fo_approve_event rt event_id approved
handle rt (bo_approve event_id approved) = bo_approve_event rt event_id approved

-- A request has a session of its own, closed when the request ends.
unfoldable pub request : Runtime → EventRequest → Db → Result TradeEventModel × Db
unfolding handle
request rt r db = with_session (handle rt r) db
