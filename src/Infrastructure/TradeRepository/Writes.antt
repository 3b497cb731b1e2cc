-- ===== src/Infrastructure/TradeRepository/Writes.antt =====
-- The operations of src/infrastructure/db/trade_repository.py and the properties that writes to the
-- table `trades` keep.
use deep_agent_test.Prelude.{String, ℕ, List, [], ◌∷◌, ◌++◌, map, Option, none, some, update_first}
use deep_agent_test.Domain.Entities.{TradeModel, TradeWorkflowStatus}
use deep_agent_test.Infrastructure.Db.{Session, Exec, modify}
use deep_agent_test.Infrastructure.Db.Keeps.{
  Keeps, Keeps-bind, Keeps-gets, Keeps-if, Keeps-raise, Keeps-pure, keeps_rules,
}
use deep_agent_test.Infrastructure.Runtime.{Runtime}
use deep_agent_test.Infrastructure.TradeRepository.{
  Fields, is_current_of, insert_trade, create_next_version, activate_row, activate_version,
  set_current_row, update_workflow_status,
}

abbrev pub write_trades : (List TradeModel → List TradeModel) → Exec (Unit {0})
write_trades f = modify (λ db. record db { trades = f db.trades })

module _ {P : Session → Type 0} (rt : Runtime)
    (step : (f : List TradeModel → List TradeModel) → Keeps P (write_trades f)) where
  set_current_row-Keeps :
      (t : String) (f : TradeModel → TradeModel) (o : Option TradeModel)
      → Keeps P (set_current_row rt t f o)
  set_current_row-Keeps t f none = search keeps_rules
  set_current_row-Keeps t f (some row) =
      search (keeps_rules, step (update_first (is_current_of t) f))

  pub update_workflow_status-Keeps :
      (t : String) (status : TradeWorkflowStatus) (extra : TradeModel → TradeModel)
      → Keeps P (update_workflow_status rt t status extra)
  unfolding update_workflow_status
  update_workflow_status-Keeps t status extra = search (keeps_rules, set_current_row-Keeps)

  insert_trade-Keeps : (row : TradeModel) → Keeps P (insert_trade row)
  insert_trade-Keeps row = Keeps-bind _ _ (Keeps-if _ _ _ (Keeps-raise _) (Keeps-pure tt)) λ _.
      Keeps-bind _ _ (Keeps-gets _)
        λ taken. Keeps-if taken _ _ (Keeps-raise _) (step (λ rows. rows ++ row ∷ []))

  pub create_next_version-Keeps :
      (t : String) (fields : Option Fields) → Keeps P (create_next_version rt t fields)
  unfolding create_next_version
  create_next_version-Keeps t fields = search (keeps_rules, insert_trade-Keeps) depth 40

  pub activate_version-Keeps : (t : String) (v : ℕ) → Keeps P (activate_version rt t v)
  unfolding activate_version
  activate_version-Keeps t v = search (keeps_rules, step (map (activate_row rt t v)))
