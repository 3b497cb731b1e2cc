-- ===== src/Presentation/TradeEvents/Creation.antt =====
-- The creation of an event in src/presentation/routers/trade_events.py and the invariant of the
-- database.
use deep_agent_test.Prelude.{
  ℕ, ◌≡◌, refl, String, List, [], ◌∷◌, Option, none, some, count_if, find_first, arith, inl, inr,
  Option-cases, Bool-cases, ap, not, ◌&&◌, eq_iff, count_if-append, count_if-find_none,
}
use deep_agent_test.Result.{http, database_error}
use deep_agent_test.Infrastructure.Columns.{fits}
use deep_agent_test.Domain.Entities.{
  TradeModel, TradeEventModel, EventType, amend, cancel, EventWorkflowStatus,
}
use deep_agent_test.Infrastructure.Db.{Session, modify, commit, ◌>>=◌, ◌>>◌}
use deep_agent_test.Infrastructure.Db.Keeps.{
  Keeps, On, keeps_rules, on_rules, step_ok, step_err, gets_step, raise_if_some_pass, raise_if_pass,
  raise_if_raise, raise_if_some_raise, bind_at, bind_from,
}
use deep_agent_test.Infrastructure.Runtime.{Runtime}
use deep_agent_test.Infrastructure.TradeRepository.{Fields}
use deep_agent_test.Infrastructure.TradeRepository.Writes.{write_trades}
use deep_agent_test.Infrastructure.EventRepository.{has_id, pending_of, add_event, create}
use deep_agent_test.Infrastructure.Validity.{
  IsValid, update_workflow_status-IsValid, create_next_version-IsValid,
}
use deep_agent_test.Infrastructure.Validity.Engine.{KeepsKey-id}
use deep_agent_test.Presentation.TradeEvents.{
  TradeEventCreateRequest, refresh, open_version, book, create_trade_event, typed,
}
use deep_agent_test.Presentation.TradeEvents.Writes.{open_version-Keeps}

-- No event of the trade is in flight, in the transaction's state.
record NoneInFlight (t : String) (s : Session) : Type 0 where
  idle : count_if (pending_of t) s.work.events ≡ 0

write_trades-NoneInFlight :
    (t : String) (f : List TradeModel → List TradeModel) → Keeps (NoneInFlight t) (write_trades f)
unfolding modify
write_trades-NoneInFlight t f = record { at = λ s h. record { idle = h.idle } }

record IsReady (t : String) (s : Session) : Type 0 where
  valid : On IsValid s
  none_in_flight : NoneInFlight t s

module _ (rt : Runtime) where
  open_version-IsValid :
      (t : String) (v : ℕ) (fields : Option Fields) (ty : EventType)
      → Keeps (On IsValid) (open_version rt t v fields ty)
  unfolding open_version
  open_version-IsValid t v fields amend =
      search (keeps_rules, create_next_version-IsValid, update_workflow_status-IsValid, KeepsKey-id)
        depth 12
  open_version-IsValid t v fields cancel =
      search (keeps_rules, update_workflow_status-IsValid, KeepsKey-id) depth 12

  add_event-IsValid :
      (t : String) (v w : ℕ) (ty : EventType) (by : String) (reason : Option String)
      (fields : Option Fields) (s : Session)
      → IsReady t s
      → On IsValid (add_event rt t v w ty by reason fields s).1
  unfolding add_event ◌>>=◌
  add_event-IsValid t v w ty by reason fields s h = record {
    at_work = record {
      trades_consistent = h.valid.at_work.trades_consistent;
      one_pending = λ u. ground (
        arith,
        count_if-append (pending_of u) s.work.events (event ∷ []),
        h.valid.at_work.one_pending u,
        h.none_in_flight.idle,
        eq_iff t u,
      );
      ids_unique = λ i. ground (
        arith,
        count_if-append (has_id i) s.work.events (event ∷ []),
        h.valid.at_work.ids_unique i,
        h.valid.at_work.ids_below i,
      );
      ids_below = λ i b. ground (
        arith,
        count_if-append (has_id i) s.work.events (event ∷ []),
        h.valid.at_work.ids_below i,
      );
    };
    at_saved = h.valid.at_saved;
  }
    where
      event : TradeEventModel
      event = record {
        id = s.work.next_id;
        trade_id = t;
        from_version = v;
        to_version = w;
        event_type = ty;
        workflow_status = EventWorkflowStatus.fo_user_to_validate;
        requested_by = by;
        reason = reason;
        amended_fields = fields;
        created_at = rt.now;
        updated_at = rt.now;
      }

  create-IsValid :
      (t : String) (v w : ℕ) (ty : EventType) (by : String) (reason : Option String)
      (fields : Option Fields) (s : Session)
      → IsReady t s
      → On IsValid (create rt t v w ty by reason fields s).1
  unfolding create
  create-IsValid t v w ty by reason fields s h = elim (Bool-cases (fits 50 t && fits 100 by)) [
    | inl good ↦
        step_ok (On IsValid) _ _ s tt s (raise_if_pass _ _ s (ap not good))
          (add_event-IsValid t v w ty by reason fields s h)
    | inr bad ↦
        step_err (On IsValid) _ _ s database_error s (raise_if_raise _ _ s (ap not bad)) h.valid
  ]

  book-IsValid :
      (t : String) (body : TradeEventCreateRequest) (ty : EventType) (current : TradeModel)
      → Keeps (On IsValid) (book rt t body ty current)
  unfolding book
  book-IsValid t body ty current = record {
    at = λ s h. elim (Option-cases (find_first (pending_of t) s.work.events)) [
      | inr (e, found) ↦
          step_ok (On IsValid) _ _ s (some e) s (gets_step _ s (some e) found)
            (step_err (On IsValid) _ _ s (http 409) s (raise_if_some_raise e (http 409) s) h)
      | inl idle ↦ step_ok (On IsValid) _ _ s none s (gets_step _ s none idle) (
          step_ok (On IsValid) _ _ s tt s
            (raise_if_some_pass {A = TradeEventModel} none (http 409) s refl)
            (bind_from {P = On IsValid} (IsReady t)
              (open_version rt t current.version body.amended_fields ty) _ s
              (record {
                valid = (open_version-IsValid t current.version body.amended_fields ty).at s h;
                none_in_flight =
                    (open_version-Keeps rt (write_trades-NoneInFlight t) t current.version
                        body.amended_fields ty).at
                      s (record { idle = count_if-find_none (pending_of t) s.work.events idle });
              })
              (λ s' r. r.valid)
              (λ to_version s' r.
                bind_at {P = On IsValid}
                  (create rt t current.version to_version ty body.requested_by (some body.reason)
                    body.amended_fields)
                  (λ event. commit >> refresh event) s'
                  (create-IsValid t current.version to_version ty body.requested_by
                    (some body.reason) body.amended_fields s' r)
                  (λ event. search (keeps_rules, on_rules)))))
    ];
  }

  pub create_trade_event-IsValid :
      (t : String) (body : TradeEventCreateRequest)
      → Keeps (On IsValid) (create_trade_event rt t body)
  unfolding create_trade_event typed
  create_trade_event-IsValid t body = search (keeps_rules, book-IsValid) depth 20
