-- ===== src/Infrastructure/Validity.antt =====
-- The invariant of the database, and the writes of src/infrastructure/db/trade_repository.py and
-- trade_event_repository.py under it.
pub mod Engine
use deep_agent_test.Prelude.{
  ℕ, zero, suc, ◌+◌, ◌≤◌, ◌≡◌, refl, String, Bool, true, false, not, ◌&&◌, List, [], ◌∷◌, ◌++◌, map,
  Option, none, some, any, count_if, find_first, update_first, if◌then◌else◌, arith, ◌⊎◌, inl, inr,
  Bool-cases, text_eq, eq_iff, ◌==◌, count_if-append, count_if-update_first,
  count_if-update_first_at,
}
use deep_agent_test.Result.{Result, ok, err}
use deep_agent_test.Domain.Entities.{
  TradeModel, TradeWorkflowStatus, TradeEventModel, EventWorkflowStatus, CheckResult,
  CounterpartyModel, SettlementInstructionModel,
}
use deep_agent_test.Domain.Rules.Fo.{FoRule}
use deep_agent_test.Domain.Rules.Bo.{BoRule}
use deep_agent_test.Infrastructure.Db.{Db, Session, Exec, raise, gets, modify, attempt, when, ◌>>=◌}
use deep_agent_test.Infrastructure.Db.Keeps.{Keeps, On, keeps_rules, on_rules, Keeps-modify}
use deep_agent_test.Infrastructure.Runtime.{Runtime}
use deep_agent_test.Infrastructure.TradeRepository.{
  Fields, is_current_of, has_version, add_version, insert_trade, create_next_version, activate_row,
  activate_version, with_status, set_current_row, update_workflow_status,
}
use deep_agent_test.Infrastructure.EventRepository.{
  has_id, pending_of, update_status, event_with_status, is_terminal, is_auto,
}
use deep_agent_test.Infrastructure.RuleEngine.{
  run_fo_rules, run_bo_rules, start_triage, fo_check_rules, run_fo_check, bo_check_rules,
  run_bo_check, maybe_run_bo_check, maybe_run_fo_check,
}
use deep_agent_test.Infrastructure.Consistency.{
  IsConsistent, KeepsKey, update_first-IsConsistent, append-IsConsistent, activate-IsConsistent,
}

pub record IsValid (db : Db) : Type 0 where
  pub trades_consistent : IsConsistent db.trades
  -- at most one event of a trade is in flight
  pub one_pending : (t : String) → count_if (pending_of t) db.events ≤ 1
  pub ids_unique : (i : ℕ) → count_if (has_id i) db.events ≤ 1
  pub ids_below : (i : ℕ) → db.next_id ≤ i → count_if (has_id i) db.events ≡ 0

-- A write to the table `trades`.
pub write_trades-IsValid :
    (f : List TradeModel → List TradeModel)
    → ((rows : List TradeModel) → IsConsistent rows → IsConsistent (f rows))
    → Keeps (On IsValid) (modify (λ db. record db { trades = f db.trades }))
write_trades-IsValid f k =
    Keeps-modify (λ db. record db { trades = f db.trades })
      (λ db h. record {
        trades_consistent = k db.trades h.trades_consistent;
        one_pending = h.one_pending;
        ids_unique = h.ids_unique;
        ids_below = h.ids_below;
      })

module _ (rt : Runtime) where
  with_status-KeepsKey :
      (status : TradeWorkflowStatus) (extra : TradeModel → TradeModel)
      → KeepsKey extra
      → KeepsKey (with_status rt status extra)
  with_status-KeepsKey status extra k = record {
    trade_id = λ r. k.trade_id (record r { workflow_status = status; updated_at = rt.now });
    version = λ r. k.version (record r { workflow_status = status; updated_at = rt.now });
    is_current = λ r. k.is_current (record r { workflow_status = status; updated_at = rt.now });
  }

  set_current_row-IsValid :
      (t : String) (f : TradeModel → TradeModel) (o : Option TradeModel)
      → KeepsKey f
      → Keeps (On IsValid) (set_current_row rt t f o)
  set_current_row-IsValid t f none k = search keeps_rules
  set_current_row-IsValid t f (some row) k = search (
    keeps_rules,
    write_trades-IsValid (update_first (is_current_of t) f)
        (λ rows. update_first-IsConsistent (is_current_of t) f rows k),
  )

  pub update_workflow_status-IsValid :
      (t : String) (status : TradeWorkflowStatus) (extra : TradeModel → TradeModel)
      → KeepsKey extra
      → Keeps (On IsValid) (update_workflow_status rt t status extra)
  unfolding update_workflow_status
  update_workflow_status-IsValid t status extra k = search (
    keeps_rules,
    λ (o : Option TradeModel).
        set_current_row-IsValid t (with_status rt status extra) o
          (with_status-KeepsKey status extra k),
  )

  pub activate_version-IsValid : (t : String) (v : ℕ) → Keeps (On IsValid) (activate_version rt t v)
  unfolding activate_version
  activate_version-IsValid t v =
      search (
        keeps_rules,
        write_trades-IsValid (map (activate_row rt t v)) (activate-IsConsistent rt t v),
      )

-- The part of `insert_trade` after the columns' bounds.
add_version-IsValid :
    (row : TradeModel) → row.is_current ≡ false → Keeps (On IsValid) (add_version row)
unfolding ◌>>=◌
add_version-IsValid row c = record {
  at = λ s h. elim (Bool-cases (any (has_version row.trade_id row.version) s.work.trades)) [
    | inl taken ↦ rw taken h
    | inr fresh ↦ rw fresh (record {
      at_work = record {
        trades_consistent =
            append-IsConsistent row s.work.trades c fresh h.at_work.trades_consistent;
        one_pending = h.at_work.one_pending;
        ids_unique = h.at_work.ids_unique;
        ids_below = h.at_work.ids_below;
      };
      at_saved = h.at_saved;
    })
  ];
}

pub insert_trade-IsValid :
    (row : TradeModel) → row.is_current ≡ false → Keeps (On IsValid) (insert_trade row)
insert_trade-IsValid row c = search (keeps_rules, add_version-IsValid)

module _ (rt : Runtime) where
  pub create_next_version-IsValid :
      (t : String) (fields : Option Fields) → Keeps (On IsValid) (create_next_version rt t fields)
  unfolding create_next_version
  create_next_version-IsValid t fields = search (keeps_rules, insert_trade-IsValid) depth 40

  -- An event that is found may take any status if it was in flight, and a terminal one always.
  update_event-IsValid :
      (id : ℕ) (status : EventWorkflowStatus) (e : TradeEventModel) (db : Db)
      → find_first (has_id id) db.events ≡ some e
      → (is_terminal status ≡ false → is_terminal e.workflow_status ≡ false)
      → IsValid db
      → IsValid
          (record db { events = update_first (has_id id) (event_with_status rt status) db.events })
  update_event-IsValid id status e db found k h = record {
    trades_consistent = h.trades_consistent;
    one_pending = λ t. omega (
      arith,
      count_if-update_first_at (pending_of t) (has_id id) (event_with_status rt status) e db.events
          found (λ p. ground arith),
      h.one_pending t,
    );
    ids_unique = λ i.
        rw
          (count_if-update_first (has_id i) (has_id id) (event_with_status rt status) db.events
            (λ r. refl))
          (h.ids_unique i);
    ids_below = λ i b.
        rw
          (count_if-update_first (has_id i) (has_id id) (event_with_status rt status) db.events
            (λ r. refl))
          (h.ids_below i b);
  }

  pub update_status-IsValid :
      (id : ℕ) (status : EventWorkflowStatus) (e : TradeEventModel) (s : Session)
      → find_first (has_id id) s.work.events ≡ some e
      → (is_terminal status ≡ false → is_terminal e.workflow_status ≡ false)
      → On IsValid s
      → On IsValid (update_status rt id status s).1
  unfolding update_status modify
  update_status-IsValid id status e s found k h = record {
    at_work = update_event-IsValid id status e s.work found k h.at_work;
    at_saved = h.at_saved;
  }
