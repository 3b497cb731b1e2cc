-- ===== src/Infrastructure/Validity/Engine.antt =====
-- src/infrastructure/rule_engine.py and the invariant of the database.
use deep_agent_test.Prelude.{String, Option, List, [], ◌∷◌, refl}
use deep_agent_test.Result.{Result}
use deep_agent_test.Domain.Entities.{
  TradeModel, CheckResult, CounterpartyModel, SettlementInstructionModel,
}
use deep_agent_test.Domain.Rules.Fo.{FoRule}
use deep_agent_test.Domain.Rules.Bo.{BoRule}
use deep_agent_test.Infrastructure.Db.{Db, Session, lift}
use deep_agent_test.Infrastructure.Db.Keeps.{
  Keeps, Keeps-bind, Keeps-lift, Keeps-pure, On, keeps_rules, on_rules,
}
use deep_agent_test.Infrastructure.Runtime.{Runtime}
use deep_agent_test.Infrastructure.EventRepository.{is_auto}
use deep_agent_test.Infrastructure.RuleEngine.{
  run_fo_rules, run_bo_rules, start_triage, fo_check_rules, run_fo_check, bo_check_rules,
  run_bo_check, maybe_run_bo_check, maybe_run_fo_check,
}
use deep_agent_test.Infrastructure.Consistency.{KeepsKey}
use deep_agent_test.Infrastructure.Validity.{IsValid, update_workflow_status-IsValid}

module _ {P : Session → Type 0} where
  pub Keeps-run_fo_rules :
      (rules : List FoRule) (trade : TradeModel) → Keeps P (run_fo_rules rules trade)
  unfolding run_fo_rules
  Keeps-run_fo_rules [] trade = search keeps_rules
  Keeps-run_fo_rules (rule ∷ rules) trade =
      Keeps-bind (lift (rule.check_fn trade)) _ (Keeps-lift _) λ verdict.
        Keeps-bind (run_fo_rules rules trade) _ (Keeps-run_fo_rules rules trade)
          λ rest. Keeps-pure _

  pub Keeps-run_bo_rules :
      (rules : List BoRule) (trade : TradeModel) (cp : Option CounterpartyModel)
      (ssi : Option SettlementInstructionModel)
      → Keeps P (run_bo_rules rules trade cp ssi)
  unfolding run_bo_rules
  Keeps-run_bo_rules [] trade cp ssi = search keeps_rules
  Keeps-run_bo_rules (rule ∷ rules) trade cp ssi =
      Keeps-bind (lift (rule.check_fn trade cp ssi)) _ (Keeps-lift _) λ verdict.
        Keeps-bind (run_bo_rules rules trade cp ssi) _ (Keeps-run_bo_rules rules trade cp ssi)
          λ rest. Keeps-pure _

  pub Keeps-is_auto : (key : String) → Keeps P (is_auto key)
  unfolding is_auto
  Keeps-is_auto key = search keeps_rules

-- What the automatic triage promises: from a valid database it leaves a valid one.
pub record TriageKeeps (rt : Runtime) (Q : Db → Type 0) : Type 0 where
  pub fo : (t context : String) (db : Db) → Q db → Q (rt.fo_start t context db).1
  pub bo : (t context : String) (db : Db) → Q db → Q (rt.bo_start t context db).1

module _ {Q : Db → Type 0} where
  pub Keeps-start_triage :
      (start : Db → Result (Unit {0}) × Db)
      → ((db : Db) → Q db → Q (start db).1)
      → Keeps (On Q) (start_triage start)
  Keeps-start_triage start k = record {
    at = λ s h. record { at_work = k s.saved h.at_saved; at_saved = k s.saved h.at_saved };
  }

results-KeepsKey_fo :
    (results : Option (List CheckResult))
    → KeepsKey (λ row. record row { fo_check_results = results })
results-KeepsKey_fo results = record {
  trade_id = λ r. refl;
  version = λ r. refl;
  is_current = λ r. refl;
}

results-KeepsKey_bo :
    (results : Option (List CheckResult))
    → KeepsKey (λ row. record row { bo_check_results = results })
results-KeepsKey_bo results = record {
  trade_id = λ r. refl;
  version = λ r. refl;
  is_current = λ r. refl;
}

pub KeepsKey-id : KeepsKey (λ row. row)
KeepsKey-id = record { trade_id = λ r. refl; version = λ r. refl; is_current = λ r. refl }

module _ (rt : Runtime) (k : TriageKeeps rt IsValid) where
  ruleset engine_rules = (
    keeps_rules, on_rules, Keeps-is_auto, Keeps-run_fo_rules, Keeps-run_bo_rules,
    Keeps-start_triage, update_workflow_status-IsValid, results-KeepsKey_fo, results-KeepsKey_bo,
    KeepsKey-id,
  )

  fo_check_rules-IsValid : (t : String) → Keeps (On IsValid) (fo_check_rules rt t)
  unfolding fo_check_rules
  fo_check_rules-IsValid t = search engine_rules depth 30

  pub run_fo_check-IsValid : (t : String) → Keeps (On IsValid) (run_fo_check rt t)
  unfolding run_fo_check
  run_fo_check-IsValid t = search (engine_rules, fo_check_rules-IsValid, k.fo) depth 30

  bo_check_rules-IsValid : (t : String) → Keeps (On IsValid) (bo_check_rules rt t)
  unfolding bo_check_rules
  bo_check_rules-IsValid t = search engine_rules depth 30

  pub run_bo_check-IsValid : (t : String) → Keeps (On IsValid) (run_bo_check rt t)
  unfolding run_bo_check
  run_bo_check-IsValid t = search (engine_rules, bo_check_rules-IsValid, k.bo) depth 30

  pub maybe_run_bo_check-IsValid : (t : String) → Keeps (On IsValid) (maybe_run_bo_check rt t)
  unfolding maybe_run_bo_check
  maybe_run_bo_check-IsValid t = search (engine_rules, run_bo_check-IsValid) depth 30

  pub maybe_run_fo_check-IsValid : (t : String) → Keeps (On IsValid) (maybe_run_fo_check rt t)
  unfolding maybe_run_fo_check
  maybe_run_fo_check-IsValid t =
      search (engine_rules, run_fo_check-IsValid, maybe_run_bo_check-IsValid) depth 30
