-- ===== src/Presentation/TradeEvents/Validity.antt =====
-- The requests of src/presentation/routers/trade_events.py and the invariant of the database.
use deep_agent_test.Prelude.{
  ℕ, ◌≡◌, refl, String, Bool, true, false, not, Option, none, some, find_first, arith, inl, inr,
  Bool-cases, Option-cases, sym, find_first_holds, ap, update_first, delete_where,
}
use mathlib.Core.Path.{subst}
use deep_agent_test.Result.{http}
use deep_agent_test.Domain.Entities.{
  TradeModel, TradeWorkflowStatus, TradeEventModel, EventType, amend, cancel, EventWorkflowStatus,
}
use deep_agent_test.Infrastructure.Db.{Db, Session}
use deep_agent_test.Infrastructure.Db.Keeps.{
  Keeps, On, keeps_rules, on_rules, step_ok, step_err, raise_if_pass, raise_if_raise, bind_at,
  Keeps-with_session,
}
use deep_agent_test.Infrastructure.Runtime.{Runtime}
use deep_agent_test.Infrastructure.TradeRepository.{is_current_of, has_version}
use deep_agent_test.Infrastructure.EventRepository.{has_id, update_status}
use deep_agent_test.Infrastructure.Consistency.{
  KeepsKey, update_first-IsConsistent, delete_where-IsConsistent,
}
use deep_agent_test.Infrastructure.Validity.{
  IsValid, write_trades-IsValid, update_workflow_status-IsValid, activate_version-IsValid,
  update_status-IsValid,
}
use deep_agent_test.Infrastructure.Validity.Engine.{
  TriageKeeps, KeepsKey-id, maybe_run_fo_check-IsValid,
}
use deep_agent_test.Presentation.TradeEvents.{
  EventRequest, create_event, fo_approve, bo_approve, handle, request, pending_version, restore,
  awaits_fo, awaits_bo, get_event_found, get_event_missing, reject, fo_decide, fo_approve_event,
  approve, set_initial, bo_decide, bo_approve_event, cancel_pending_version,
}
use deep_agent_test.Presentation.TradeEvents.Creation.{create_trade_event-IsValid}

module _ (rt : Runtime) where
  restore-KeepsKey : (now : ℕ) → KeepsKey (restore now)
  restore-KeepsKey now = record {
    trade_id = λ r. ground arith;
    version = λ r. ground arith;
    is_current = λ r. ground arith;
  }

  cancel_pending_version-IsValid :
      (t : String) (v : ℕ) → Keeps (On IsValid) (cancel_pending_version rt t v)
  unfolding cancel_pending_version
  cancel_pending_version-IsValid t v = search (
    keeps_rules,
    write_trades-IsValid (delete_where (pending_version t v))
        (delete_where-IsConsistent (pending_version t v)),
    write_trades-IsValid (update_first (is_current_of t) (restore rt.now)) (λ rows.
        update_first-IsConsistent (is_current_of t) (restore rt.now) rows
          (restore-KeepsKey rt.now)),
  )

  initial-KeepsKey : KeepsKey (λ r. record r { workflow_status = TradeWorkflowStatus.initial })
  initial-KeepsKey = record { trade_id = λ r. refl; version = λ r. refl; is_current = λ r. refl }

  set_initial-IsValid :
      (t : String) (v : ℕ) (o : Option TradeModel) → Keeps (On IsValid) (set_initial rt t v o)
  unfolding set_initial
  set_initial-IsValid t v none = search keeps_rules
  set_initial-IsValid t v (some row) = search (
    keeps_rules,
    write_trades-IsValid
        (update_first (has_version t v)
          (λ r. record r { workflow_status = TradeWorkflowStatus.initial }))
        (λ rows. update_first-IsConsistent (has_version t v) _ rows initial-KeepsKey),
  )

  -- The event that a decision is about, as the handlers find it.
  module _ (event : TradeEventModel) (s : Session)
      (found : find_first (has_id event.id) s.work.events ≡ some event) (h : On IsValid s) where
    reject-IsValid : On IsValid (reject rt event s).1
    unfolding reject
    reject-IsValid =
        bind_at {P = On IsValid} (update_status rt event.id EventWorkflowStatus.cancelled) _ s
          (update_status-IsValid rt event.id EventWorkflowStatus.cancelled event s found (λ p. cc)
            h)
          (λ _. search (keeps_rules, cancel_pending_version-IsValid))

    approve-IsValid : (ty : EventType) → On IsValid (approve rt event ty s).1
    unfolding approve
    approve-IsValid amend =
        bind_at {P = On IsValid} (update_status rt event.id EventWorkflowStatus.done) _ s
          (update_status-IsValid rt event.id EventWorkflowStatus.done event s found (λ p. cc) h)
          (λ _. search (keeps_rules, activate_version-IsValid, set_initial-IsValid) depth 8)
    approve-IsValid cancel =
        bind_at {P = On IsValid} (update_status rt event.id EventWorkflowStatus.done) _ s
          (update_status-IsValid rt event.id EventWorkflowStatus.done event s found (λ p. cc) h)
          (λ _. search (keeps_rules, update_workflow_status-IsValid, KeepsKey-id) depth 8)

    fo_decide-IsValid :
        (approved : Bool)
        → awaits_fo event.workflow_status ≡ true
        → On IsValid (fo_decide rt event approved s).1
    unfolding fo_decide
    fo_decide-IsValid true w =
        update_status-IsValid rt event.id EventWorkflowStatus.fo_validated event s found
          (λ _. ground arith) h
    fo_decide-IsValid false w = reject-IsValid

    bo_decide-IsValid : (approved : Bool) → On IsValid (bo_decide rt event approved s).1
    unfolding bo_decide
    bo_decide-IsValid true = approve-IsValid event.event_type
    bo_decide-IsValid false = reject-IsValid

  found_itself :
      (id : ℕ) (event : TradeEventModel) (s : Session)
      → find_first (has_id id) s.work.events ≡ some event
      → find_first (has_id event.id) s.work.events ≡ some event
  found_itself id event s e =
      let same : event.id ≡ id =
        ground (arith, find_first_holds (has_id id) event s.work.events e) in
      subst (λ (i : ℕ). find_first (has_id i) s.work.events ≡ some event) (sym same) e

  fo_approve_event-IsValid :
      (id : ℕ) (approved : Bool) → Keeps (On IsValid) (fo_approve_event rt id approved)
  unfolding fo_approve_event
  fo_approve_event-IsValid id approved = record {
    at = λ s h. elim (Option-cases (find_first (has_id id) s.work.events)) [
      | inl missing ↦ step_err (On IsValid) _ _ s (http 404) s (get_event_missing id s missing) h
      | inr (event, found) ↦
          step_ok (On IsValid) _ _ s event s (get_event_found id event s found)
            (elim (Bool-cases (awaits_fo event.workflow_status)) [
              | inr w ↦
                  step_err (On IsValid) _ _ s (http 409) s
                    (raise_if_raise _ (http 409) s (ap not w)) h
              | inl w ↦ step_ok (On IsValid) _ _ s tt s (raise_if_pass _ (http 409) s (ap not w)) (
                  bind_at {P = On IsValid} (fo_decide rt event approved) _ s
                    (fo_decide-IsValid event s (found_itself id event s found) h approved w)
                    (λ _. search (keeps_rules, on_rules) depth 12))
            ])
    ];
  }

  module _ (k : TriageKeeps rt IsValid) where
    bo_approve_event-IsValid :
        (id : ℕ) (approved : Bool) → Keeps (On IsValid) (bo_approve_event rt id approved)
    unfolding bo_approve_event
    bo_approve_event-IsValid id approved = record {
      at = λ s h. elim (Option-cases (find_first (has_id id) s.work.events)) [
        | inl missing ↦ step_err (On IsValid) _ _ s (http 404) s (get_event_missing id s missing) h
        | inr (event, found) ↦
            step_ok (On IsValid) _ _ s event s (get_event_found id event s found)
              (elim (Bool-cases (awaits_bo event.workflow_status)) [
                | inr w ↦
                    step_err (On IsValid) _ _ s (http 409) s
                      (raise_if_raise _ (http 409) s (ap not w)) h
                | inl w ↦
                    step_ok (On IsValid) _ _ s tt s (raise_if_pass _ (http 409) s (ap not w)) (
                      bind_at {P = On IsValid} (bo_decide rt event approved) _ s
                        (bo_decide-IsValid event s (found_itself id event s found) h approved)
                        (λ _.
                          search (keeps_rules, on_rules, maybe_run_fo_check-IsValid rt k) depth 12))
              ])
      ];
    }

    handle-IsValid : (r : EventRequest) → Keeps (On IsValid) (handle rt r)
    unfolding handle
    handle-IsValid (create_event t body) = create_trade_event-IsValid rt t body
    handle-IsValid (fo_approve id approved) = fo_approve_event-IsValid id approved
    handle-IsValid (bo_approve id approved) = bo_approve_event-IsValid id approved

-- Where the automatic triage keeps the invariant, every request to the event API keeps it, whether
-- it succeeds or fails: versions of a trade are distinct, at most one of them is current, at most
-- one event of a trade is in flight, and event identifiers are distinct and below the next one.
pub request-IsValid :
    (rt : Runtime) (r : EventRequest) (db : Db)
    → TriageKeeps rt IsValid
    → IsValid db
    → IsValid (request rt r db).1
unfolding request
request-IsValid rt r db k h = Keeps-with_session (handle rt r) db (handle-IsValid rt k r) h
