-- ===== src/Presentation/TradeEvents/Lifecycle.antt =====
-- The states of an event of src/presentation/routers/trade_events.py through the requests.
use deep_agent_test.Prelude.{
  ℕ, ◌≡◌, sym, ap, Bool, true, false, not, String, Option, some, find_first, inl, inr, Bool-cases,
  Option-cases,
}
use mathlib.Core.Path.{subst}
use deep_agent_test.Result.{http}
use deep_agent_test.Domain.Entities.{
  TradeModel, TradeWorkflowStatus, TradeEventModel, EventType, amend, cancel, EventWorkflowStatus,
}
use deep_agent_test.Infrastructure.Db.{Db, Session}
use deep_agent_test.Infrastructure.Db.Keeps.{
  Keeps, On, keeps_rules, on_rules, bind_at, step_ok, step_err, raise_if_pass, raise_if_raise,
}
use deep_agent_test.Infrastructure.Runtime.{Runtime}
use deep_agent_test.Infrastructure.TradeRepository.{
  Fields, update_workflow_status, activate_version,
}
use deep_agent_test.Infrastructure.TradeRepository.Writes.{
  update_workflow_status-Keeps, activate_version-Keeps,
}
use deep_agent_test.Infrastructure.EventRepository.{has_id, update_status}
use deep_agent_test.Infrastructure.RuleEngine.{maybe_run_fo_check}
use deep_agent_test.Infrastructure.RuleEngine.Keeping.{maybe_run_fo_check-Keeps}
use deep_agent_test.Presentation.TradeEvents.{
  open_version, cancel_pending_version, set_initial, EventRequest, create_event, fo_approve,
  bo_approve, handle, request, get_event_found, get_event_missing, awaits_fo, awaits_bo, book,
  typed, create_trade_event, reject, approve, fo_decide, bo_decide, fo_approve_event,
  bo_approve_event, TradeEventCreateRequest,
}
use deep_agent_test.Presentation.TradeEvents.Writes.{
  open_version-Keeps, cancel_pending_version-Keeps, set_initial-Keeps,
}
use deep_agent_test.Presentation.TradeEvents.Moves.{
  Move, fo_validates, fo_cancels, bo_finishes, bo_cancels, Moved, TriageSilent, Unmoved, both,
  fo_state, bo_state, found_itself, update_status-Moved, write_trades-Moved, create-Moved,
  triage-Moved,
}

module _ (i : ℕ) (e : TradeEventModel) where
  module _ (rt : Runtime) where
    open_version-Moved :
        (t : String) (v : ℕ) (fields : Option Fields) (ty : EventType)
        → Keeps (On (Moved i e)) (open_version rt t v fields ty)
    open_version-Moved = open_version-Keeps rt (write_trades-Moved i e)

    cancel_pending_version-Moved :
        (t : String) (v : ℕ) → Keeps (On (Moved i e)) (cancel_pending_version rt t v)
    cancel_pending_version-Moved = cancel_pending_version-Keeps rt (write_trades-Moved i e)

    set_initial-Moved :
        (t : String) (v : ℕ) (o : Option TradeModel) → Keeps (On (Moved i e)) (set_initial rt t v o)
    set_initial-Moved = set_initial-Keeps rt (write_trades-Moved i e)

    update_workflow_status-Moved :
        (t : String) (status : TradeWorkflowStatus) (extra : TradeModel → TradeModel)
        → Keeps (On (Moved i e)) (update_workflow_status rt t status extra)
    update_workflow_status-Moved = update_workflow_status-Keeps rt (write_trades-Moved i e)

    activate_version-Moved : (t : String) (v : ℕ) → Keeps (On (Moved i e)) (activate_version rt t v)
    activate_version-Moved = activate_version-Keeps rt (write_trades-Moved i e)

    ruleset moved_rules = (
      keeps_rules, on_rules, create-Moved, open_version-Moved, cancel_pending_version-Moved,
      set_initial-Moved, update_workflow_status-Moved, activate_version-Moved,
    )

    create_trade_event-Moved :
        (t : String) (body : TradeEventCreateRequest)
        → Keeps (On (Moved i e)) (create_trade_event rt t body)
    unfolding create_trade_event typed book
    create_trade_event-Moved t body = search moved_rules depth 40

    module _ (event : TradeEventModel) (s : Session)
        (found : find_first (has_id event.id) s.work.events ≡ some event)
        (h : On (Unmoved i e) s) where
      reject-Moved :
          Move event.workflow_status EventWorkflowStatus.cancelled
          → On (Moved i e) (reject rt event s).1
      unfolding reject
      reject-Moved m =
          bind_at {P = On (Moved i e)} (update_status rt event.id EventWorkflowStatus.cancelled) _ s
            (update_status-Moved i e rt event.id EventWorkflowStatus.cancelled event s found m h)
            (λ _. search moved_rules depth 12)

      approve-Moved :
          (ty : EventType)
          → Move event.workflow_status EventWorkflowStatus.done
          → On (Moved i e) (approve rt event ty s).1
      unfolding approve
      approve-Moved amend m =
          bind_at {P = On (Moved i e)} (update_status rt event.id EventWorkflowStatus.done) _ s
            (update_status-Moved i e rt event.id EventWorkflowStatus.done event s found m h)
            (λ _. search moved_rules depth 12)
      approve-Moved cancel m =
          bind_at {P = On (Moved i e)} (update_status rt event.id EventWorkflowStatus.done) _ s
            (update_status-Moved i e rt event.id EventWorkflowStatus.done event s found m h)
            (λ _. search moved_rules depth 12)

      fo_decide-Moved :
          (approved : Bool)
          → event.workflow_status ≡ EventWorkflowStatus.fo_user_to_validate
          → On (Moved i e) (fo_decide rt event approved s).1
      unfolding fo_decide
      fo_decide-Moved true w =
          update_status-Moved i e rt event.id EventWorkflowStatus.fo_validated event s found
            (subst (λ x. Move x EventWorkflowStatus.fo_validated) (sym w) fo_validates) h
      fo_decide-Moved false w =
          reject-Moved (subst (λ x. Move x EventWorkflowStatus.cancelled) (sym w) fo_cancels)

      bo_decide-Moved :
          (approved : Bool)
          → event.workflow_status ≡ EventWorkflowStatus.fo_validated
          → On (Moved i e) (bo_decide rt event approved s).1
      unfolding bo_decide
      bo_decide-Moved true w =
          approve-Moved event.event_type
            (subst (λ x. Move x EventWorkflowStatus.done) (sym w) bo_finishes)
      bo_decide-Moved false w =
          reject-Moved (subst (λ x. Move x EventWorkflowStatus.cancelled) (sym w) bo_cancels)

    fo_approve_event-Moved :
        (id : ℕ) (approved : Bool) (s : Session)
        → On (Unmoved i e) s
        → On (Moved i e) (fo_approve_event rt id approved s).1
    unfolding fo_approve_event
    fo_approve_event-Moved id approved s h =
        elim (Option-cases (find_first (has_id id) s.work.events)) [
          | inl missing ↦
              step_err (On (Moved i e)) _ _ s (http 404) s (get_event_missing id s missing)
                (both i e s h)
          | inr (event, found) ↦
              step_ok (On (Moved i e)) _ _ s event s (get_event_found id event s found)
                (elim (Bool-cases (awaits_fo event.workflow_status)) [
                  | inr w ↦
                      step_err (On (Moved i e)) _ _ s (http 409) s
                        (raise_if_raise _ (http 409) s (ap not w)) (both i e s h)
                  | inl w ↦
                      step_ok (On (Moved i e)) _ _ s tt s (raise_if_pass _ (http 409) s (ap not w))
                        (bind_at {P = On (Moved i e)} (fo_decide rt event approved) _ s
                          (fo_decide-Moved event s (found_itself i e id event s found) h approved
                            (fo_state i e event w))
                          (λ _. search moved_rules depth 12))
                ])
        ]

    maybe_run_fo_check-Moved :
        TriageSilent rt → (t : String) → Keeps (On (Moved i e)) (maybe_run_fo_check rt t)
    maybe_run_fo_check-Moved k =
        maybe_run_fo_check-Keeps rt (write_trades-Moved i e) (triage-Moved i e rt k)

    bo_approve_event-Moved :
        (id : ℕ) (approved : Bool) (s : Session)
        → TriageSilent rt
        → On (Unmoved i e) s
        → On (Moved i e) (bo_approve_event rt id approved s).1
    unfolding bo_approve_event
    bo_approve_event-Moved id approved s k h =
        elim (Option-cases (find_first (has_id id) s.work.events)) [
          | inl missing ↦
              step_err (On (Moved i e)) _ _ s (http 404) s (get_event_missing id s missing)
                (both i e s h)
          | inr (event, found) ↦
              step_ok (On (Moved i e)) _ _ s event s (get_event_found id event s found)
                (elim (Bool-cases (awaits_bo event.workflow_status)) [
                  | inr w ↦
                      step_err (On (Moved i e)) _ _ s (http 409) s
                        (raise_if_raise _ (http 409) s (ap not w)) (both i e s h)
                  | inl w ↦
                      step_ok (On (Moved i e)) _ _ s tt s (raise_if_pass _ (http 409) s (ap not w))
                        (bind_at {P = On (Moved i e)} (bo_decide rt event approved) _ s
                          (bo_decide-Moved event s (found_itself i e id event s found) h approved
                            (bo_state i e event w))
                          (λ _. search (moved_rules, maybe_run_fo_check-Moved k) depth 12))
                ])
        ]

    handle-Moved :
        (r : EventRequest) (s : Session)
        → TriageSilent rt
        → On (Unmoved i e) s
        → On (Moved i e) (handle rt r s).1
    unfolding handle
    handle-Moved (create_event t body) s k h = (create_trade_event-Moved t body).at s (both i e s h)
    handle-Moved (fo_approve id approved) s k h = fo_approve_event-Moved id approved s h
    handle-Moved (bo_approve id approved) s k h = bo_approve_event-Moved id approved s k h

-- Every request to the event API, successful or not, moves an event by one step at most: the Front
-- Office decides first and the Back Office second, either may cancel, and an event that is Done
-- or Cancelled stays so. Its trade and its type never change. The automatic triage is assumed to
-- leave the events alone.
pub request-Moved :
    (rt : Runtime) (r : EventRequest) (db : Db) (i : ℕ) (event : TradeEventModel)
    → TriageSilent rt
    → find_first (has_id i) db.events ≡ some event
    → Moved i event (request rt r db).1
unfolding request
request-Moved rt r db i event k found =
    (handle-Moved i event rt r (record { work = db; saved = db }) k
      (record { at_work = record { found = found }; at_saved = record { found = found } })).at_saved
