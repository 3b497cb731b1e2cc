-- ===== src/Presentation/TradeEvents/Guards.antt =====
-- What the router of src/presentation/routers/trade_events.py refuses.
use deep_agent_test.Prelude.{
  ℕ, ◌≡◌, refl, ◌∙◌, ap, Bool, true, false, not, ◌&&◌, String, none, some, find_first,
}
use deep_agent_test.Result.{err, http}
use deep_agent_test.Domain.Entities.{TradeModel, TradeEventModel, EventType, amend}
use deep_agent_test.Infrastructure.Db.{
  Db, Session, Exec, raise_if, or_raise, raise_if_some, raise, pure, with_session,
}
use deep_agent_test.Infrastructure.Db.Keeps.{
  bind_ok, bind_err, raise_if_pass, raise_if_raise, gets_step, raise_if_some_raise,
}
use deep_agent_test.Infrastructure.Runtime.{Runtime}
use deep_agent_test.Infrastructure.TradeRepository.{is_current_of, get_current}
use deep_agent_test.Infrastructure.EventRepository.{has_id, pending_of, get_pending}
use deep_agent_test.Presentation.TradeEvents.{
  get_event_or_404, get_event_found, get_event_missing, awaits_fo, awaits_bo, fo_approve_event,
  bo_approve_event, create_trade_event, book, typed, EventRequest, fo_approve, bo_approve,
  create_event, handle, request, TradeEventCreateRequest, event_type_of, is_amend, lacks_fields,
}

abbrev fresh : Db → Session
fresh db = record { work = db; saved = db }

-- The refusals of the router, with the status code of each: an unknown event or trade, a decision
-- that is not due, an unknown event type, an AMEND without fields, and a second event of a trade
-- while one is in flight.
pub data Refused (db : Db) : EventRequest → ℕ → Type 0 where
  fo_missing :
      (id : ℕ) (approved : Bool)
      → find_first (has_id id) db.events ≡ none
      → Refused db (fo_approve id approved) 404
  fo_not_due :
      (id : ℕ) (approved : Bool) (event : TradeEventModel)
      → find_first (has_id id) db.events ≡ some event
      → awaits_fo event.workflow_status ≡ false
      → Refused db (fo_approve id approved) 409
  bo_missing :
      (id : ℕ) (approved : Bool)
      → find_first (has_id id) db.events ≡ none
      → Refused db (bo_approve id approved) 404
  bo_not_due :
      (id : ℕ) (approved : Bool) (event : TradeEventModel)
      → find_first (has_id id) db.events ≡ some event
      → awaits_bo event.workflow_status ≡ false
      → Refused db (bo_approve id approved) 409
  unknown_type :
      (t : String) (body : TradeEventCreateRequest)
      → event_type_of body.event_type ≡ none
      → Refused db (create_event t body) 422
  no_fields :
      (t : String) (body : TradeEventCreateRequest)
      → event_type_of body.event_type ≡ some amend
      → lacks_fields body.amended_fields ≡ true
      → Refused db (create_event t body) 422
  no_trade :
      (t : String) (body : TradeEventCreateRequest) (type : EventType)
      → event_type_of body.event_type ≡ some type
      → (is_amend type && lacks_fields body.amended_fields) ≡ false
      → find_first (is_current_of t) db.trades ≡ none
      → Refused db (create_event t body) 404
  in_flight :
      (t : String) (body : TradeEventCreateRequest) (type : EventType) (current : TradeModel)
      (event : TradeEventModel)
      → event_type_of body.event_type ≡ some type
      → (is_amend type && lacks_fields body.amended_fields) ≡ false
      → find_first (is_current_of t) db.trades ≡ some current
      → find_first (pending_of t) db.events ≡ some event
      → Refused db (create_event t body) 409

module _ (rt : Runtime) where
  fo_none :
      (id : ℕ) (approved : Bool) (db : Db)
      → find_first (has_id id) db.events ≡ none
      → fo_approve_event rt id approved (fresh db) ≡ (err (http 404), fresh db)
  unfolding fo_approve_event
  fo_none id approved db missing =
      bind_err (get_event_or_404 id) _ (fresh db) (http 404) (fresh db)
        (get_event_missing id (fresh db) missing)

  fo_elsewhere :
      (id : ℕ) (approved : Bool) (event : TradeEventModel) (db : Db)
      → find_first (has_id id) db.events ≡ some event
      → awaits_fo event.workflow_status ≡ false
      → fo_approve_event rt id approved (fresh db) ≡ (err (http 409), fresh db)
  unfolding fo_approve_event
  fo_elsewhere id approved event db found w =
      bind_ok (get_event_or_404 id) _ (fresh db) event (fresh db)
        (get_event_found id event (fresh db) found)
      ∙ bind_err (raise_if (not (awaits_fo event.workflow_status)) (http 409)) _ (fresh db)
          (http 409) (fresh db)
          (raise_if_raise (not (awaits_fo event.workflow_status)) (http 409) (fresh db) (ap not w))

  bo_none :
      (id : ℕ) (approved : Bool) (db : Db)
      → find_first (has_id id) db.events ≡ none
      → bo_approve_event rt id approved (fresh db) ≡ (err (http 404), fresh db)
  unfolding bo_approve_event
  bo_none id approved db missing =
      bind_err (get_event_or_404 id) _ (fresh db) (http 404) (fresh db)
        (get_event_missing id (fresh db) missing)

  bo_elsewhere :
      (id : ℕ) (approved : Bool) (event : TradeEventModel) (db : Db)
      → find_first (has_id id) db.events ≡ some event
      → awaits_bo event.workflow_status ≡ false
      → bo_approve_event rt id approved (fresh db) ≡ (err (http 409), fresh db)
  unfolding bo_approve_event
  bo_elsewhere id approved event db found w =
      bind_ok (get_event_or_404 id) _ (fresh db) event (fresh db)
        (get_event_found id event (fresh db) found)
      ∙ bind_err (raise_if (not (awaits_bo event.workflow_status)) (http 409)) _ (fresh db)
          (http 409) (fresh db)
          (raise_if_raise (not (awaits_bo event.workflow_status)) (http 409) (fresh db) (ap not w))

  -- `create_trade_event`, up to the point that the code reaches.
  create_unknown :
      (t : String) (body : TradeEventCreateRequest) (db : Db)
      → event_type_of body.event_type ≡ none
      → create_trade_event rt t body (fresh db) ≡ (err (http 422), fresh db)
  unfolding create_trade_event raise
  create_unknown t body db e =
      bind_err (or_raise (event_type_of body.event_type) (http 422)) _ (fresh db) (http 422)
        (fresh db) (ap (λ o. or_raise o (http 422) (fresh db)) e)

  create_typed :
      (t : String) (body : TradeEventCreateRequest) (type : EventType) (db : Db)
      → event_type_of body.event_type ≡ some type
      → create_trade_event rt t body (fresh db) ≡ typed rt t body type (fresh db)
  unfolding create_trade_event pure typed
  create_typed t body type db e =
      bind_ok (or_raise (event_type_of body.event_type) (http 422)) _ (fresh db) type (fresh db)
        (ap (λ o. or_raise o (http 422) (fresh db)) e)

  create_no_fields :
      (t : String) (body : TradeEventCreateRequest) (db : Db)
      → lacks_fields body.amended_fields ≡ true
      → typed rt t body amend (fresh db) ≡ (err (http 422), fresh db)
  unfolding typed
  create_no_fields t body db l =
      bind_err (raise_if (lacks_fields body.amended_fields) (http 422)) _ (fresh db) (http 422)
        (fresh db) (raise_if_raise (lacks_fields body.amended_fields) (http 422) (fresh db) l)

  create_no_trade :
      (t : String) (body : TradeEventCreateRequest) (type : EventType) (db : Db)
      → (is_amend type && lacks_fields body.amended_fields) ≡ false
      → find_first (is_current_of t) db.trades ≡ none
      → typed rt t body type (fresh db) ≡ (err (http 404), fresh db)
  unfolding typed raise
  create_no_trade t body type db l n =
      bind_ok (raise_if (is_amend type && lacks_fields body.amended_fields) (http 422)) _ (fresh db)
        tt (fresh db)
        (raise_if_pass (is_amend type && lacks_fields body.amended_fields) (http 422) (fresh db) l)
      ∙ bind_ok (get_current t) _ (fresh db) none (fresh db) (gets_step _ (fresh db) none n)
      ∙ bind_err (or_raise none (http 404)) _ (fresh db) (http 404) (fresh db) refl

  create_in_flight :
      (t : String) (body : TradeEventCreateRequest) (type : EventType) (current : TradeModel)
      (event : TradeEventModel) (db : Db)
      → (is_amend type && lacks_fields body.amended_fields) ≡ false
      → find_first (is_current_of t) db.trades ≡ some current
      → find_first (pending_of t) db.events ≡ some event
      → typed rt t body type (fresh db) ≡ (err (http 409), fresh db)
  unfolding typed pure book
  create_in_flight t body type current event db l c e =
      bind_ok (raise_if (is_amend type && lacks_fields body.amended_fields) (http 422)) _ (fresh db)
        tt (fresh db)
        (raise_if_pass (is_amend type && lacks_fields body.amended_fields) (http 422) (fresh db) l)
      ∙ bind_ok (get_current t) _ (fresh db) (some current) (fresh db)
          (gets_step _ (fresh db) (some current) c)
      ∙ bind_ok (or_raise (some current) (http 404)) _ (fresh db) current (fresh db) refl
      ∙ bind_ok (get_pending t) _ (fresh db) (some event) (fresh db)
          (gets_step _ (fresh db) (some event) e)
      ∙ bind_err (raise_if_some (some event) (http 409)) _ (fresh db) (http 409) (fresh db)
          (raise_if_some_raise event (http 409) (fresh db))

  closed :
      (m : Exec TradeEventModel) (n : ℕ) (db : Db)
      → m (fresh db) ≡ (err (http n), fresh db)
      → with_session m db ≡ (err (http n), db)
  closed m n db e = rw e refl

  -- A request to the event API that falls under one of these cases leaves the database as it was:
  -- 404 for an unknown event or trade, 409 for a decision that is not due in the status of the
  -- event and for a second event of a trade while one is in flight, and 422 for an unknown event
  -- type and an AMEND without fields.
  pub request-Refused :
      (r : EventRequest) (n : ℕ) (db : Db) → Refused db r n → request rt r db ≡ (err (http n), db)
  unfolding request handle
  request-Refused r n db (fo_missing id approved e) =
      closed (fo_approve_event rt id approved) 404 db (fo_none id approved db e)
  request-Refused r n db (fo_not_due id approved event e w) =
      closed (fo_approve_event rt id approved) 409 db (fo_elsewhere id approved event db e w)
  request-Refused r n db (bo_missing id approved e) =
      closed (bo_approve_event rt id approved) 404 db (bo_none id approved db e)
  request-Refused r n db (bo_not_due id approved event e w) =
      closed (bo_approve_event rt id approved) 409 db (bo_elsewhere id approved event db e w)
  request-Refused r n db (unknown_type t body e) =
      closed (create_trade_event rt t body) 422 db (create_unknown t body db e)
  request-Refused r n db (no_fields t body e l) =
      closed (create_trade_event rt t body) 422 db
        (create_typed t body amend db e ∙ create_no_fields t body db l)
  request-Refused r n db (no_trade t body type e l c) =
      closed (create_trade_event rt t body) 404 db
        (create_typed t body type db e ∙ create_no_trade t body type db l c)
  request-Refused r n db (in_flight t body type current event e l c p) =
      closed (create_trade_event rt t body) 409 db
        (create_typed t body type db e ∙ create_in_flight t body type current event db l c p)
