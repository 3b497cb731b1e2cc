-- ===== src/Tests.antt =====
-- A small database and surroundings, on which the theorems and the handlers are tried.
pub mod Domain
pub mod Events
pub mod Checks
pub mod Tools
pub mod Calendar
pub mod Trades
pub mod Creation
pub mod Results
pub mod Agents
pub mod FoAgent
pub mod Requests
pub mod Reading
use deep_agent_test.Prelude.{
  ℕ, ◌≡◌, refl, String, Bool, true, false, Option, none, some, List, [], ◌∷◌, text_eq,
  if◌then◌else◌,
}
use deep_agent_test.Result.{Result, ok, err, database_error}
use deep_agent_test.Domain.Numbers.{Decimal, ℤ, pos, negsuc}
use deep_agent_test.Domain.Classification.{spot}
use deep_agent_test.Domain.Entities.{
  TradeModel, TradeWorkflowStatus, TradeEventModel, EventType, amend, cancel, EventWorkflowStatus,
  CounterpartyModel, SettlementInstructionModel, Message,
}
use deep_agent_test.Infrastructure.Db.{Db}
use deep_agent_test.Infrastructure.Runtime.{Runtime}

abbrev pub amount_of : ℕ → Decimal
amount_of n = record { coefficient = pos n; places = 2 }

-- Wednesday, 2026-04-29, with the value date on the Friday after it.
abbrev pub trade_row : String → ℕ → Bool → TradeWorkflowStatus → TradeModel
trade_row id version current status = record {
  trade_id = id;
  version = version;
  workflow_status = status;
  is_current = current;
  counterparty_lei = "LEI1";
  instrument_id = "EURUSD";
  currency = "USD";
  amount = amount_of 100000;
  fx_rate = amount_of 109;
  trade_type = spot;
  value_date = 739737;
  trade_date = 739735;
  input_date = 739735;
  settlement_currency = "USD";
  sendback_count = 0;
  fo_check_results = none;
  bo_check_results = none;
  bo_sendback_reason = none;
  fo_explanation = none;
  created_at = 1;
  updated_at = 1;
}

abbrev pub event_row : ℕ → String → ℕ → ℕ → EventType → EventWorkflowStatus → TradeEventModel
event_row id trade v w type status = record {
  id = id;
  trade_id = trade;
  from_version = v;
  to_version = w;
  event_type = type;
  workflow_status = status;
  requested_by = "fo_user_01";
  reason = some "wrong date";
  amended_fields = none;
  created_at = 1;
  updated_at = 1;
}

abbrev pub counterparty_row : CounterpartyModel
counterparty_row = record {
  lei = "LEI1";
  name = "Acme";
  bic = "ACMEUS33";
  is_active = true;
  updated_at = 1;
}

abbrev pub ssi_row : SettlementInstructionModel
ssi_row = record {
  id = 9;
  lei = "LEI1";
  currency = "USD";
  bic = "ACMEUS33";
  account = "1234";
  iban = none;
  is_external = false;
  created_at = 1;
  updated_at = 1;
}

-- T1 has an amendment that FO has approved, T2 a cancellation that awaits FO.
abbrev pub sample : Db
sample = record {
  trades =
      trade_row "T1" 1 true TradeWorkflowStatus.event_pending
      ∷ trade_row "T1" 2 false TradeWorkflowStatus.event_pending
      ∷ trade_row "T2" 1 true TradeWorkflowStatus.event_pending
      ∷ trade_row "T3" 1 true TradeWorkflowStatus.done
      ∷ [];
  events =
      event_row 0 "T1" 1 2 amend EventWorkflowStatus.fo_validated
      ∷ event_row 1 "T2" 1 1 cancel EventWorkflowStatus.fo_user_to_validate
      ∷ [];
  settings = ("fo_check_trigger", "auto") ∷ ("bo_check_trigger", "auto") ∷ [];
  counterparties = counterparty_row ∷ [];
  ssis = ssi_row ∷ [];
  exceptions = [];
  runs = [];
  reference_data = [];
  next_id = 2;
}

-- The calendar is open, and the automatic triage changes nothing.
abbrev pub surroundings : Runtime
surroundings = record {
  today = 739735;
  now = 5;
  schwifty = some (λ iban. true);
  from_isoformat = λ s. if text_eq s "2026-05-04" then some 739740 else none;
  decimal = λ s. if text_eq s "500.00" then some (amount_of 50000) else none;
  column_cast = λ v. err database_error;
  calendar = λ instrument d.
      ok (record { status_ok = true; is_business_day = some true; reason = "open" });
  render = λ m. "message";
  fo_start = λ t c db. (ok tt, db);
  bo_start = λ t c db. (ok tt, db);
}
