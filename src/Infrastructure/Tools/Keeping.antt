-- ===== src/Infrastructure/Tools/Keeping.antt =====
-- The tools of src/infrastructure/tools.py and the invariant of the database.
use deep_agent_test.Prelude.{arith, ◌+◌, ℕ, refl, String, Option, none, some, List}
use deep_agent_test.Domain.Entities.{CounterpartyModel, SettlementInstructionModel}
use deep_agent_test.Infrastructure.Db.{Db, Exec}
use deep_agent_test.Infrastructure.Db.Keeps.{Keeps, On, keeps_rules, on_rules}
use deep_agent_test.Infrastructure.Runtime.{Runtime}
use deep_agent_test.Infrastructure.Consistency.{KeepsKey}
use deep_agent_test.Infrastructure.Validity.{IsValid, update_workflow_status-IsValid}
use deep_agent_test.Infrastructure.Validity.Engine.{KeepsKey-id}
use deep_agent_test.Infrastructure.Tools.{
  ToolResult, with_sendback, send_back_to_fo, escalate_to_bo_user, escalate_to_fo_user,
  with_explanation, provide_explanation, register_ssi, reactivate_counterparty, update_ssi,
  answer_row,
}

-- Writes to the master data.
pub counterparties-IsValid :
    (db : Db) (rows : List CounterpartyModel)
    → IsValid db
    → IsValid (record db { counterparties = rows })
counterparties-IsValid db rows h = record {
  trades_consistent = h.trades_consistent;
  one_pending = h.one_pending;
  ids_unique = h.ids_unique;
  ids_below = h.ids_below;
}

pub ssis-IsValid :
    (db : Db) (rows : List SettlementInstructionModel)
    → IsValid db
    → IsValid (record db { ssis = rows })
ssis-IsValid db rows h = record {
  trades_consistent = h.trades_consistent;
  one_pending = h.one_pending;
  ids_unique = h.ids_unique;
  ids_below = h.ids_below;
}

pub new_ssi-IsValid :
    (db : Db) (rows : List SettlementInstructionModel)
    → IsValid db
    → IsValid (record db { ssis = rows; next_id = db.next_id + 1 })
new_ssi-IsValid db rows h = record {
  trades_consistent = h.trades_consistent;
  one_pending = h.one_pending;
  ids_unique = h.ids_unique;
  ids_below = λ i above. h.ids_below i (omega (arith, above));
}

Keeps-answer_row :
    {A : Type 0} (missing : ToolResult) (go : A → Exec ToolResult) (row : Option A)
    → ((a : A) → Keeps (On IsValid) (go a))
    → Keeps (On IsValid) (answer_row missing go row)
Keeps-answer_row missing go none k = search keeps_rules
Keeps-answer_row missing go (some a) k = k a

module _ (rt : Runtime) where
  with_sendback-KeepsKey : (reason : String) (count : ℕ) → KeepsKey (with_sendback rt reason count)
  with_sendback-KeepsKey reason count = record {
    trade_id = λ r. refl;
    version = λ r. refl;
    is_current = λ r. refl;
  }

  with_explanation-KeepsKey : (text : String) → KeepsKey (with_explanation rt text)
  with_explanation-KeepsKey text = record {
    trade_id = λ r. refl;
    version = λ r. refl;
    is_current = λ r. refl;
  }

  ruleset tool_rules = (
    keeps_rules, on_rules, update_workflow_status-IsValid, with_sendback-KeepsKey,
    with_explanation-KeepsKey, KeepsKey-id, Keeps-answer_row, counterparties-IsValid, ssis-IsValid,
    new_ssi-IsValid,
  )

  pub send_back_to_fo-IsValid :
      (t reason : String) → Keeps (On IsValid) (send_back_to_fo rt t reason)
  unfolding send_back_to_fo
  send_back_to_fo-IsValid t reason = search tool_rules depth 30

  pub escalate_to_bo_user-IsValid :
      (t reason : String) → Keeps (On IsValid) (escalate_to_bo_user rt t reason)
  unfolding escalate_to_bo_user
  escalate_to_bo_user-IsValid t reason = search tool_rules depth 30

  pub escalate_to_fo_user-IsValid :
      (t reason : String) → Keeps (On IsValid) (escalate_to_fo_user rt t reason)
  unfolding escalate_to_fo_user
  escalate_to_fo_user-IsValid t reason = search tool_rules depth 30

  pub provide_explanation-IsValid :
      (t text : String) → Keeps (On IsValid) (provide_explanation rt t text)
  unfolding provide_explanation
  provide_explanation-IsValid t text = search tool_rules depth 30

  pub register_ssi-IsValid :
      (lei currency bic account iban : String)
      → Keeps (On IsValid) (register_ssi rt lei currency bic account iban)
  unfolding register_ssi
  register_ssi-IsValid lei currency bic account iban = search tool_rules depth 30

  pub reactivate_counterparty-IsValid :
      (lei : String) → Keeps (On IsValid) (reactivate_counterparty rt lei)
  unfolding reactivate_counterparty
  reactivate_counterparty-IsValid lei = search tool_rules depth 30

  pub update_ssi-IsValid :
      (lei currency bic account iban : String)
      → Keeps (On IsValid) (update_ssi rt lei currency bic account iban)
  unfolding update_ssi
  update_ssi-IsValid lei currency bic account iban = search tool_rules depth 30
