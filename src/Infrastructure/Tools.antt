-- ===== src/Infrastructure/Tools.antt =====
-- src/infrastructure/tools.py: the tools that write, as actions of one session, and the lookup of
-- an external settlement instruction. The database is configured (`_db_session` yields one).
pub mod Keeping
pub mod Registration
pub mod Reading
pub mod Feedback
pub mod History
use deep_agent_test.Prelude.{
  ℕ, ◌+◌, String, Bool, true, false, not, ◌&&◌, Option, none, some, List, [], ◌∷◌, ◌++◌, find_first,
  update_first, text_eq, if◌then◌else◌,
}
use deep_agent_test.Result.{Error, Result, ok, err, value_error, invalid_operation, database_error}
use deep_agent_test.Infrastructure.Columns.{fits, fits_ssi}
use deep_agent_test.Domain.Entities.{
  TradeModel, TradeWorkflowStatus, EventType, TradeEventModel, CounterpartyModel,
  SettlementInstructionModel,
}
use deep_agent_test.Infrastructure.Db.{
  Db, Session, Exec, raise_if, pure, gets, modify, commit, ◌>>=◌, ◌>>◌,
}
use deep_agent_test.Infrastructure.Runtime.{Runtime}
use deep_agent_test.Infrastructure.TradeRepository.{
  Fields, get_current, create_next_version, update_workflow_status,
}
use deep_agent_test.Infrastructure.EventRepository.{create}
use deep_agent_test.Infrastructure.RuleEngine.{is_counterparty, is_ssi}

-- The JSON answers, one constructor for each, with what it quotes.
pub data ToolResult : Type 0 where
  trade_not_found counterparty_not_found invalid_json : String → ToolResult
  ssi_not_found : String → String → ToolResult
  failed : Error → ToolResult
  sent_back : String → ℕ → String → ToolResult
  escalated_to_bo escalated_to_fo explained : String → String → ToolResult
  amend_proposed : String → ℕ → ℕ → Fields → String → ToolResult
  cancel_proposed : String → ℕ → String → ToolResult
  registered : String → String → String → String → ToolResult
  reactivated : String → ToolResult
  updated : String → String → SettlementInstructionModel → ToolResult
  -- the answer of a tool that only reads
  answer : String → ToolResult

-- The answer that depends on the row which a write returned.
abbrev pub answer_row :
    {A : Type 0} → ToolResult → (A → Exec ToolResult) → Option A → Exec ToolResult
answer_row missing go none = pure missing
answer_row missing go (some row) = go row

module _ (rt : Runtime) where
  abbrev pub with_sendback : String → ℕ → TradeModel → TradeModel
  with_sendback reason count row = record row {
    bo_sendback_reason = some reason;
    sendback_count = count;
  }

  abbrev pub send_back_row : String → String → TradeModel → Exec ToolResult
  send_back_row trade_id reason trade = do
    let new_count = trade.sendback_count + 1
    update_workflow_status rt trade_id TradeWorkflowStatus.fo_agent_to_check
        (with_sendback reason new_count)
    commit
    pure (sent_back trade_id new_count reason)

  unfoldable pub send_back_to_fo : String → String → Exec ToolResult
  send_back_to_fo trade_id reason = do
    trade ← get_current trade_id
    answer_row (trade_not_found trade_id) (send_back_row trade_id reason) trade

  -- `escalate_to_bo_user`, `escalate_to_fo_user` and `provide_explanation` differ in the status,
  -- in what else they set and in the answer.
  abbrev pub set_status :
      String → TradeWorkflowStatus → (TradeModel → TradeModel) → ToolResult → Exec ToolResult
  set_status trade_id status extra done_ = do
    row ← update_workflow_status rt trade_id status extra
    answer_row (trade_not_found trade_id) (λ _. commit >> pure done_) row

  unfoldable pub escalate_to_bo_user : String → String → Exec ToolResult
  escalate_to_bo_user trade_id reason =
      set_status trade_id TradeWorkflowStatus.bo_user_to_validate (λ row. row)
        (escalated_to_bo trade_id reason)

  unfoldable pub escalate_to_fo_user : String → String → Exec ToolResult
  escalate_to_fo_user trade_id reason =
      set_status trade_id TradeWorkflowStatus.fo_user_to_validate (λ row. row)
        (escalated_to_fo trade_id reason)

  abbrev pub with_explanation : String → TradeModel → TradeModel
  with_explanation explanation row = record row { fo_explanation = some explanation }

  unfoldable pub provide_explanation : String → String → Exec ToolResult
  provide_explanation trade_id explanation =
      set_status trade_id TradeWorkflowStatus.fo_validated (with_explanation explanation)
        (explained trade_id explanation)

  abbrev pub amend_row : String → String → Fields → TradeModel → Exec ToolResult
  amend_row trade_id reason fields current = do
    new_row ← create_next_version rt trade_id (some fields)
    update_workflow_status rt trade_id TradeWorkflowStatus.event_pending (λ row. row)
    event ←
        create rt trade_id current.version new_row.version EventType.amend "fo_agent" (some reason)
          (some fields)
    commit
    pure (amend_proposed trade_id new_row.version event.id fields reason)

  -- `except ValueError`; the session is then closed without a commit.
  abbrev pub value_error_result : Error → Result ToolResult
  value_error_result value_error = ok (failed value_error)
  value_error_result e = err e

  abbrev pub catch_value_error : Exec ToolResult → Exec ToolResult
  catch_value_error m s = elim (m s).0 [
    | ok r ↦ (ok r, (m s).1)
    | err e ↦ (value_error_result e, (m s).1)
  ]

  abbrev pub amend_parsed : String → String → String → Option Fields → Exec ToolResult
  amend_parsed trade_id reason text none = pure (invalid_json text)
  amend_parsed trade_id reason text (some fields) = catch_value_error (do
    current ← get_current trade_id
    answer_row (trade_not_found trade_id) (amend_row trade_id reason fields) current)

  -- `json_object` is `json.loads`, `none` where it raises; an empty text stands for no fields.
  unfoldable pub create_amend_event :
      (String → Option Fields) → String → String → String → Exec ToolResult
  create_amend_event json_object trade_id reason amended_fields =
      amend_parsed trade_id reason amended_fields
        (if text_eq amended_fields "" then some [] else json_object amended_fields)

  abbrev pub cancel_row : String → String → TradeModel → Exec ToolResult
  cancel_row trade_id reason current = do
    update_workflow_status rt trade_id TradeWorkflowStatus.event_pending (λ row. row)
    event ←
        create rt trade_id current.version current.version EventType.cancel "fo_agent" (some reason)
          none
    commit
    pure (cancel_proposed trade_id event.id reason)

  unfoldable pub create_cancel_event : String → String → Exec ToolResult
  create_cancel_event trade_id reason = do
    current ← get_current trade_id
    answer_row (trade_not_found trade_id) (cancel_row trade_id reason) current

-- `iban or None`
abbrev pub optional_text : String → Option String
optional_text text = if text_eq text "" then none else some text

abbrev pub get_ssi : String → String → Bool → Exec (Option SettlementInstructionModel)
get_ssi lei currency external = gets (λ db. find_first (is_ssi lei currency external) db.ssis)

-- `lookup_external_ssi`, which only reads.
abbrev pub lookup_external_ssi : String → String → Exec (Option SettlementInstructionModel)
lookup_external_ssi lei currency = get_ssi lei currency true

module _ (rt : Runtime) where
  abbrev pub overwrite_ssi :
      SettlementInstructionModel → SettlementInstructionModel → SettlementInstructionModel
  overwrite_ssi ssi row = record row {
    bic = ssi.bic;
    account = ssi.account;
    iban = ssi.iban;
    updated_at = rt.now;
  }

  abbrev pub put_ssi :
      SettlementInstructionModel
      → Option SettlementInstructionModel
      → List SettlementInstructionModel
      → List SettlementInstructionModel
  put_ssi ssi none rows = rows ++ ssi ∷ []
  put_ssi ssi (some existing) rows =
      update_first (is_ssi ssi.lei ssi.currency ssi.is_external) (overwrite_ssi ssi) rows

  -- `SsiRepository.register`. The identifier of the argument is that of a new row.
  abbrev pub register : SettlementInstructionModel → Exec (Unit {0})
  register ssi = do
    raise_if (not (fits_ssi ssi)) database_error
    existing ← get_ssi ssi.lei ssi.currency ssi.is_external
    modify (λ db. record db { ssis = put_ssi ssi existing db.ssis; next_id = db.next_id + 1 })
    commit

  unfoldable pub register_ssi : String → String → String → String → String → Exec ToolResult
  register_ssi lei currency bic account iban = do
    id ← gets (λ db. db.next_id)
    register (record {
      id = id;
      lei = lei;
      currency = currency;
      bic = bic;
      account = account;
      iban = optional_text iban;
      is_external = false;
      created_at = rt.now;
      updated_at = rt.now;
    })
    pure (registered lei currency bic account)

  abbrev reactivate_row : CounterpartyModel → CounterpartyModel
  reactivate_row cp = record cp { is_active = true; updated_at = rt.now }

  -- `CounterpartyRepository.update(lei, name=None, bic=None, is_active=True)`
  abbrev activate_counterparty : String → CounterpartyModel → Exec ToolResult
  activate_counterparty lei cp = do
    modify λ db. record db {
      counterparties = update_first (is_counterparty lei) reactivate_row db.counterparties;
    }
    commit
    pure (reactivated lei)

  unfoldable pub reactivate_counterparty : String → Exec ToolResult
  reactivate_counterparty lei = do
    row ← gets (λ db. find_first (is_counterparty lei) db.counterparties)
    answer_row (counterparty_not_found lei) (activate_counterparty lei) row

  abbrev changed_text : String → String → String
  changed_text new old = if text_eq new "" then old else new

  abbrev pub change_ssi :
      String → String → String → SettlementInstructionModel → SettlementInstructionModel
  change_ssi bic account iban row = record row {
    bic = changed_text bic row.bic;
    account = changed_text account row.account;
    iban = if text_eq iban "" then row.iban else some iban;
    updated_at = rt.now;
  }

  abbrev update_ssi_row :
      String → String → String → String → String → SettlementInstructionModel → Exec ToolResult
  update_ssi_row lei currency bic account iban row = do
    raise_if (not (fits 15 bic && (fits 100 account && fits 50 iban))) database_error
    modify λ db. record db {
      ssis = update_first (is_ssi lei currency false) (change_ssi bic account iban) db.ssis;
    }
    commit
    pure (updated lei currency (change_ssi bic account iban row))

  unfoldable pub update_ssi : String → String → String → String → String → Exec ToolResult
  update_ssi lei currency bic account iban = do
    row ← get_ssi lei currency false
    answer_row (ssi_not_found lei currency) (update_ssi_row lei currency bic account iban) row
