-- ===== src/Infrastructure/RuleEngine/Keeping.antt =====
-- The checks of src/infrastructure/rule_engine.py and the properties that writes to the table
-- `trades` and the automatic triage keep.
use deep_agent_test.Prelude.{String, List}
use deep_agent_test.Domain.Entities.{TradeModel}
use deep_agent_test.Infrastructure.Db.{Db}
use deep_agent_test.Infrastructure.Db.Keeps.{Keeps, On, keeps_rules, on_rules}
use deep_agent_test.Infrastructure.Runtime.{Runtime}
use deep_agent_test.Infrastructure.TradeRepository.Writes.{
  write_trades, update_workflow_status-Keeps,
}
use deep_agent_test.Infrastructure.RuleEngine.{
  fo_check_rules, run_fo_check, bo_check_rules, run_bo_check, maybe_run_bo_check,
  maybe_run_fo_check,
}
use deep_agent_test.Infrastructure.Validity.Engine.{
  TriageKeeps, Keeps-is_auto, Keeps-run_fo_rules, Keeps-run_bo_rules, Keeps-start_triage,
}

module _ {Q : Db → Type 0} (rt : Runtime)
    (step : (f : List TradeModel → List TradeModel) → Keeps (On Q) (write_trades f))
    (k : TriageKeeps rt Q) where
  fo_check_rules-Keeps : (t : String) → Keeps (On Q) (fo_check_rules rt t)
  unfolding fo_check_rules
  fo_check_rules-Keeps t =
      search (keeps_rules, on_rules, Keeps-run_fo_rules, update_workflow_status-Keeps rt step) depth
        30

  run_fo_check-Keeps : (t : String) → Keeps (On Q) (run_fo_check rt t)
  unfolding run_fo_check
  run_fo_check-Keeps t =
      search (keeps_rules, on_rules, Keeps-is_auto, Keeps-start_triage, fo_check_rules-Keeps, k.fo)
        depth 30

  bo_check_rules-Keeps : (t : String) → Keeps (On Q) (bo_check_rules rt t)
  unfolding bo_check_rules
  bo_check_rules-Keeps t =
      search (keeps_rules, on_rules, Keeps-run_bo_rules, update_workflow_status-Keeps rt step) depth
        30

  run_bo_check-Keeps : (t : String) → Keeps (On Q) (run_bo_check rt t)
  unfolding run_bo_check
  run_bo_check-Keeps t =
      search (keeps_rules, on_rules, Keeps-is_auto, Keeps-start_triage, bo_check_rules-Keeps, k.bo)
        depth 30

  maybe_run_bo_check-Keeps : (t : String) → Keeps (On Q) (maybe_run_bo_check rt t)
  unfolding maybe_run_bo_check
  maybe_run_bo_check-Keeps t =
      search
        (
          keeps_rules,
          on_rules,
          Keeps-is_auto,
          run_bo_check-Keeps,
          update_workflow_status-Keeps rt step,
        )
        depth 30

  pub maybe_run_fo_check-Keeps : (t : String) → Keeps (On Q) (maybe_run_fo_check rt t)
  unfolding maybe_run_fo_check
  maybe_run_fo_check-Keeps t =
      search
        (
          keeps_rules,
          on_rules,
          Keeps-is_auto,
          run_fo_check-Keeps,
          maybe_run_bo_check-Keeps,
          update_workflow_status-Keeps rt step,
        )
        depth 30
