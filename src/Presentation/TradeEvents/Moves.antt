-- ===== src/Presentation/TradeEvents/Moves.antt =====
-- The states of an event of src/presentation/routers/trade_events.py, the steps between them,
-- and what the writes of the repositories make of them.
use deep_agent_test.Prelude.{
  ℕ, ◌≡◌, refl, sym, ◌∙◌, ap, true, false, String, Option, some, List, [], ◌∷◌, ◌++◌, find_first,
  update_first, find_first-append, find_first-update_first, find_first_holds, arith, inl, inr,
  Bool-cases, ◌==◌,
}
use mathlib.Core.Path.{subst}
use deep_agent_test.Domain.Entities.{TradeModel, TradeEventModel, EventType, EventWorkflowStatus}
use deep_agent_test.Infrastructure.Db.{Db, Session, modify}
use deep_agent_test.Infrastructure.Db.Keeps.{Keeps, On, keeps_rules, on_rules, Keeps-modify}
use deep_agent_test.Infrastructure.Runtime.{Runtime}
use deep_agent_test.Infrastructure.TradeRepository.{Fields}
use deep_agent_test.Infrastructure.TradeRepository.Writes.{write_trades}
use deep_agent_test.Infrastructure.EventRepository.{
  has_id, create, update_status, event_with_status,
}
use deep_agent_test.Infrastructure.Validity.Engine.{TriageKeeps}
use deep_agent_test.Presentation.TradeEvents.{awaits_fo, awaits_bo}

-- The steps of an event's status. `Done` and `Cancelled` have none but the one that stays.
pub data Move : EventWorkflowStatus → EventWorkflowStatus → Type 0 where
  stays : {status : EventWorkflowStatus} → Move status status
  fo_validates : Move EventWorkflowStatus.fo_user_to_validate EventWorkflowStatus.fo_validated
  fo_cancels : Move EventWorkflowStatus.fo_user_to_validate EventWorkflowStatus.cancelled
  bo_finishes : Move EventWorkflowStatus.fo_validated EventWorkflowStatus.done
  bo_cancels : Move EventWorkflowStatus.fo_validated EventWorkflowStatus.cancelled

-- The database has the event `before` under the identifier `i`, moved by one step at most.
pub record Moved (i : ℕ) (before : TradeEventModel) (db : Db) : Type 0 where
  pub event : TradeEventModel
  pub found : find_first (has_id i) db.events ≡ some event
  pub same_trade : event.trade_id ≡ before.trade_id
  pub same_type : event.event_type ≡ before.event_type
  pub move : Move before.workflow_status event.workflow_status

-- The automatic triage leaves the events alone.
pub record TriageSilent (rt : Runtime) : Type 0 where
  pub fo : (t context : String) (db : Db) → (rt.fo_start t context db).1.events ≡ db.events
  pub bo : (t context : String) (db : Db) → (rt.bo_start t context db).1.events ≡ db.events

module _ (i : ℕ) (e : TradeEventModel) where
  pub record Unmoved (db : Db) : Type 0 where
    pub found : find_first (has_id i) db.events ≡ some e

  unmoved : (db : Db) → Unmoved db → Moved i e db
  unmoved db u = record {
    event = e;
    found = u.found;
    same_trade = refl;
    same_type = refl;
    move = stays;
  }

  same_events : (db db' : Db) → db'.events ≡ db.events → Moved i e db → Moved i e db'
  same_events db db' p m = record {
    event = m.event;
    found = ap (find_first (has_id i)) p ∙ m.found;
    same_trade = m.same_trade;
    same_type = m.same_type;
    move = m.move;
  }

  pub triage-Moved : (rt : Runtime) → TriageSilent rt → TriageKeeps rt (Moved i e)
  triage-Moved rt k = record {
    fo = λ t c db m. same_events db _ (k.fo t c db) m;
    bo = λ t c db m. same_events db _ (k.bo t c db) m;
  }

  pub write_trades-Moved :
      (f : List TradeModel → List TradeModel) → Keeps (On (Moved i e)) (write_trades f)
  write_trades-Moved f =
      Keeps-modify (λ db. record db { trades = f db.trades }) (λ db m. same_events db _ refl m)

  appended :
      (db : Db) (row : TradeEventModel) (n : ℕ)
      → Moved i e db
      → Moved i e (record db { events = db.events ++ row ∷ []; next_id = n })
  appended db row n m = record {
    event = m.event;
    found = find_first-append (has_id i) db.events (row ∷ []) m.found;
    same_trade = m.same_trade;
    same_type = m.same_type;
    move = m.move;
  }

  pub create-Moved :
      (rt : Runtime) (t : String) (v w : ℕ) (ty : EventType) (by : String) (reason : Option String)
      (fields : Option Fields)
      → Keeps (On (Moved i e)) (create rt t v w ty by reason fields)
  unfolding create
  create-Moved rt t v w ty by reason fields = search (keeps_rules, on_rules, appended) depth 12

  -- An update of another event leaves this one, and that of this event moves it.
  updated_found :
      (rt : Runtime) (id : ℕ) (status : EventWorkflowStatus) (rows : List TradeEventModel)
      → (id == i) ≡ false
      → find_first (has_id i) (update_first (has_id id) (event_with_status rt status) rows)
        ≡ find_first (has_id i) rows
  updated_found rt id status [] ne = refl
  updated_found rt id status (r ∷ rows) ne = ground (arith, updated_found rt id status rows ne)

  the_same :
      (id : ℕ) (event : TradeEventModel) (db : Db)
      → id ≡ i
      → find_first (has_id id) db.events ≡ some event
      → Unmoved db
      → event ≡ e
  the_same id event db p found u =
      let found_i : find_first (has_id i) db.events ≡ some event =
        subst (λ j. find_first (has_id j) db.events ≡ some event) p found in
      let both_found : some event ≡ some e = sym found_i ∙ u.found in cc

  pub both : (s : Session) → On Unmoved s → On (Moved i e) s
  both s h = record { at_work = unmoved s.work h.at_work; at_saved = unmoved s.saved h.at_saved }

  pub fo_state :
      (event : TradeEventModel)
      → awaits_fo event.workflow_status ≡ true
      → event.workflow_status ≡ EventWorkflowStatus.fo_user_to_validate
  fo_state event w = ground arith

  pub bo_state :
      (event : TradeEventModel)
      → awaits_bo event.workflow_status ≡ true
      → event.workflow_status ≡ EventWorkflowStatus.fo_validated
  bo_state event w = ground arith

  pub found_itself :
      (id : ℕ) (event : TradeEventModel) (s : Session)
      → find_first (has_id id) s.work.events ≡ some event
      → find_first (has_id event.id) s.work.events ≡ some event
  found_itself id event s found =
      let same : event.id ≡ id =
        ground (arith, find_first_holds (has_id id) event s.work.events found) in
      subst (λ (j : ℕ). find_first (has_id j) s.work.events ≡ some event) (sym same) found

  pub update_status-Moved :
      (rt : Runtime) (id : ℕ) (status : EventWorkflowStatus) (event : TradeEventModel) (s : Session)
      → find_first (has_id id) s.work.events ≡ some event
      → Move event.workflow_status status
      → On Unmoved s
      → On (Moved i e) (update_status rt id status s).1
  unfolding update_status modify
  update_status-Moved rt id status event s found move h = record {
    at_work = elim (Bool-cases (id == i)) [
      | inr ne ↦ record {
        event = e;
        found = updated_found rt id status s.work.events ne ∙ h.at_work.found;
        same_trade = refl;
        same_type = refl;
        move = stays;
      }
      | inl same ↦
          let p : id ≡ i = ground arith in
          let q : event ≡ e = the_same id event s.work p found h.at_work in
          record {
            event = event_with_status rt status event;
            found =
                subst
                  (λ j.
                    find_first (has_id j)
                      (update_first (has_id id) (event_with_status rt status) s.work.events)
                    ≡ some (event_with_status rt status event))
                  p
                  (find_first-update_first (has_id id) (event_with_status rt status) s.work.events
                    (λ r. refl) found);
            same_trade = ap (λ x. x.trade_id) q;
            same_type = ap (λ x. x.event_type) q;
            move = subst (λ (x : TradeEventModel). Move x.workflow_status status) q move;
          }
    ];
    at_saved = unmoved s.saved h.at_saved;
  }
