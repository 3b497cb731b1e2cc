-- ===== src/Presentation/TradeEvents/Writes.antt =====
-- The parts of the handlers of src/presentation/routers/trade_events.py and the properties that
-- writes to the table `trades` keep.
use deep_agent_test.Prelude.{String, ℕ, List, Option, none, some, update_first, delete_where}
use deep_agent_test.Domain.Entities.{TradeModel, TradeWorkflowStatus, EventType, amend, cancel}
use deep_agent_test.Infrastructure.Db.{Session}
use deep_agent_test.Infrastructure.Db.Keeps.{Keeps, keeps_rules}
use deep_agent_test.Infrastructure.Runtime.{Runtime}
use deep_agent_test.Infrastructure.TradeRepository.{Fields, is_current_of, has_version}
use deep_agent_test.Infrastructure.TradeRepository.Writes.{
  write_trades, update_workflow_status-Keeps, create_next_version-Keeps,
}
use deep_agent_test.Presentation.TradeEvents.{
  pending_version, restore, open_version, cancel_pending_version, set_initial,
}

module _ {P : Session → Type 0} (rt : Runtime)
    (step : (f : List TradeModel → List TradeModel) → Keeps P (write_trades f)) where
  pub open_version-Keeps :
      (t : String) (v : ℕ) (fields : Option Fields) (ty : EventType)
      → Keeps P (open_version rt t v fields ty)
  unfolding open_version
  open_version-Keeps t v fields amend =
      search (keeps_rules, update_workflow_status-Keeps rt step, create_next_version-Keeps rt step)
        depth 12
  open_version-Keeps t v fields cancel =
      search (keeps_rules, update_workflow_status-Keeps rt step) depth 12

  pub cancel_pending_version-Keeps : (t : String) (v : ℕ) → Keeps P (cancel_pending_version rt t v)
  unfolding cancel_pending_version
  cancel_pending_version-Keeps t v = search (
    keeps_rules,
    step (delete_where (pending_version t v)),
    step (update_first (is_current_of t) (restore rt.now)),
  )

  pub set_initial-Keeps :
      (t : String) (v : ℕ) (o : Option TradeModel) → Keeps P (set_initial rt t v o)
  unfolding set_initial
  set_initial-Keeps t v none = search keeps_rules
  set_initial-Keeps t v (some row) = search (
    keeps_rules,
    step (
        update_first (has_version t v)
          (λ r. record r { workflow_status = TradeWorkflowStatus.initial })),
  )
