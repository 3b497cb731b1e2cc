-- ===== src/Presentation/Trades.antt =====
-- src/presentation/routers/trades.py: the requests on one trade.
pub mod Approval
pub mod Creation
pub mod Listing
use deep_agent_test.Prelude.{String, Bool, true, false, Option, none, some, List, find_first}
use deep_agent_test.Result.{Error, Result, ok, err, http, value_error}
use deep_agent_test.Domain.Entities.{
  TradeModel, TradeWorkflowStatus, CheckResult, CounterpartyModel,
}
use deep_agent_test.Infrastructure.Db.{
  Db, Session, Exec, with_session, or_raise, when, pure, gets, commit, attempt, ◌>>=◌, ◌>>◌,
}
use deep_agent_test.Infrastructure.Runtime.{Runtime}
use deep_agent_test.Infrastructure.TradeRepository.{get_current, update_workflow_status}
use deep_agent_test.Infrastructure.RuleEngine.{
  is_counterparty, is_fo_validated, run_fo_check, run_bo_check, maybe_run_bo_check,
}

abbrev pub name_of : Option CounterpartyModel → Option String
name_of none = none
name_of (some cp) = some cp.name

-- `_to_out`, with the name of the counterparty that the handler looks up.
abbrev pub to_out : TradeModel → Exec (TradeModel × Option String)
to_out row = do
  cp ← gets (λ db. find_first (is_counterparty row.counterparty_lei) db.counterparties)
  pure (row, name_of cp)

unfoldable pub get_trade : String → Exec (TradeModel × Option String)
get_trade trade_id = do found ← get_current trade_id; row ← or_raise found (http 404); to_out row

-- `next_status_by_current`
abbrev pub next_status : TradeWorkflowStatus → Option TradeWorkflowStatus
next_status TradeWorkflowStatus.fo_user_to_validate = some TradeWorkflowStatus.fo_validated
next_status TradeWorkflowStatus.bo_user_to_validate = some TradeWorkflowStatus.bo_validated
next_status _ = none

-- The `except ValueError` of the two checks; what the session did before stays undone, since it
-- is closed without a commit.
abbrev not_found : Error → Error
not_found value_error = http 404
not_found e = e

abbrev pub value_error_404 : {A : Type 0} → Exec A → Exec A
value_error_404 m s = elim (m s).0 [ ok a ↦ (ok a, (m s).1) | err e ↦ (err (not_found e), (m s).1) ]

module _ (rt : Runtime) where
  unfoldable pub operator_approve_trade : String → Exec (TradeModel × Option String)
  operator_approve_trade trade_id = do
    found ← get_current trade_id
    row ← or_raise found (http 404)
    status ← or_raise (next_status row.workflow_status) (http 409)
    saved ← update_workflow_status rt trade_id status (λ r. r)
    updated ← or_raise saved (http 404)
    commit
    to_out updated

  unfoldable pub fo_check : String → Exec (List CheckResult × TradeWorkflowStatus)
  fo_check trade_id = do
    checked ← value_error_404 (run_fo_check rt trade_id)
    when (is_fo_validated rt checked.1) (attempt (maybe_run_bo_check rt trade_id))
    pure checked

  unfoldable pub bo_check : String → Exec (List CheckResult × TradeWorkflowStatus)
  bo_check trade_id = value_error_404 (run_bo_check rt trade_id)
