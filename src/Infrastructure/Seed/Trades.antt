-- ===== src/Infrastructure/Seed/Trades.antt =====
-- The trades of src/infrastructure/seed.py.
use deep_agent_test.Prelude.{String, Option, none, some, List, [], ◌∷◌}
use deep_agent_test.Domain.Dates.{Date}
use deep_agent_test.Domain.Numbers.{Decimal}
use deep_agent_test.Domain.Entities.{CheckResult, TradeWorkflowStatus}
use deep_agent_test.Infrastructure.Seed.FoResults.{
  fo_all_pass, trd_004_fo_results, trd_005_fo_results,
}
use deep_agent_test.Infrastructure.Seed.BoResults.{
  trd_001_bo_results, trd_002_bo_results, trd_003_bo_results, trd_008_bo_results,
  trd_009_bo_results, trd_010_bo_results, trd_011_bo_results, trd_012_bo_results,
  trd_013_bo_results,
}
use deep_agent_test.Infrastructure.Seed.Masters.{amount}

-- An entry of the lists of `_upsert_trades_and_exceptions`; without an error it has no exception.
pub record SeedTrade : Type 0 where
  pub trade_id : String
  pub workflow_status : TradeWorkflowStatus
  pub counterparty_lei : String
  pub instrument_id : String
  pub currency : String
  pub amount : Decimal
  pub value_date : Date
  pub settlement_currency : String
  pub fo_check_results : Option (List CheckResult)
  pub bo_check_results : Option (List CheckResult)
  pub error_message : Option String

unfoldable pub seed_trades : List SeedTrade
seed_trades =
    record {
      trade_id = "TRD-004";
      workflow_status = TradeWorkflowStatus.fo_agent_to_check;
      counterparty_lei = "9695005MSX1OYEMGDF46";
      instrument_id = "AUD/USD";
      currency = "AUD";
      amount = amount 75000000 2;
      value_date = 738886;
      settlement_currency = "AUD";
      fo_check_results = some trd_004_fo_results;
      bo_check_results = none;
      error_message = some "Value date 2024-01-01 is in the past";
    }
    ∷ record {
      trade_id = "TRD-005";
      workflow_status = TradeWorkflowStatus.fo_agent_to_check;
      counterparty_lei = "9695005MSX1OYEMGDF46";
      instrument_id = "UNKNOWN_CCY_PAIR";
      currency = "USD";
      amount = amount 10000000 2;
      value_date = 739714;
      settlement_currency = "USD";
      fo_check_results = some trd_005_fo_results;
      bo_check_results = none;
      error_message = some "Instrument UNKNOWN_CCY_PAIR not found in reference data";
    }
    ∷ record {
      trade_id = "TRD-001";
      workflow_status = TradeWorkflowStatus.bo_agent_to_check;
      counterparty_lei = "213800QILIUD4ROSUO03";
      instrument_id = "USD/JPY";
      currency = "USD";
      amount = amount 100000000 2;
      value_date = 739714;
      settlement_currency = "USD";
      fo_check_results = some fo_all_pass;
      bo_check_results = some trd_001_bo_results;
      error_message = some "SSI not registered for counterparty 213800QILIUD4ROSUO03 / USD";
    }
    ∷ record {
      trade_id = "TRD-002";
      workflow_status = TradeWorkflowStatus.bo_agent_to_check;
      counterparty_lei = "5493001KJTIIGC8Y1R12";
      instrument_id = "EUR/USD";
      currency = "EUR";
      amount = amount 50000000 2;
      value_date = 739714;
      settlement_currency = "EUR";
      fo_check_results = some fo_all_pass;
      bo_check_results = some trd_002_bo_results;
      error_message =
          some "Invalid BIC format in settlement instructions for 5493001KJTIIGC8Y1R12 / EUR";
    }
    ∷ record {
      trade_id = "TRD-003";
      workflow_status = TradeWorkflowStatus.bo_agent_to_check;
      counterparty_lei = "UNKNOWNLEI000000001";
      instrument_id = "GBP/USD";
      currency = "GBP";
      amount = amount 25000000 2;
      value_date = 739714;
      settlement_currency = "GBP";
      fo_check_results = some fo_all_pass;
      bo_check_results = some trd_003_bo_results;
      error_message = some "Counterparty LEI UNKNOWNLEI000000001 not found in master data";
    }
    ∷ record {
      trade_id = "TRD-008";
      workflow_status = TradeWorkflowStatus.bo_agent_to_check;
      counterparty_lei = "213800QILIUD4ROSUO03";
      instrument_id = "EUR/USD";
      currency = "EUR";
      amount = amount 80000000 2;
      value_date = 739714;
      settlement_currency = "EUR";
      fo_check_results = some fo_all_pass;
      bo_check_results = some trd_008_bo_results;
      error_message = some "MT103 rejected by SWIFT. Reason code: AC01. Sender BIC: ACMEGB2L.";
    }
    ∷ record {
      trade_id = "TRD-009";
      workflow_status = TradeWorkflowStatus.bo_agent_to_check;
      counterparty_lei = "213800XYZINACTIVE001";
      instrument_id = "USD/JPY";
      currency = "USD";
      amount = amount 120000000 2;
      value_date = 739714;
      settlement_currency = "USD";
      fo_check_results = some fo_all_pass;
      bo_check_results = some trd_009_bo_results;
      error_message =
          some
            "MT103 rejected by SWIFT. Reason code: AG01. Counterparty LEI: 213800XYZINACTIVE001.";
    }
    ∷ record {
      trade_id = "TRD-010";
      workflow_status = TradeWorkflowStatus.bo_agent_to_check;
      counterparty_lei = "213800XYZINACTIVE001";
      instrument_id = "GBP/USD";
      currency = "GBP";
      amount = amount 60000000 2;
      value_date = 739714;
      settlement_currency = "GBP";
      fo_check_results = some fo_all_pass;
      bo_check_results = some trd_010_bo_results;
      error_message =
          some "Pre-settlement validation failed for TRD-010. Multiple checks not passed.";
    }
    ∷ record {
      trade_id = "TRD-011";
      workflow_status = TradeWorkflowStatus.bo_agent_to_check;
      counterparty_lei = "254900CUSTBANK000001";
      instrument_id = "GBP/USD";
      currency = "GBP";
      amount = amount 45000000 2;
      value_date = 739714;
      settlement_currency = "GBP";
      fo_check_results = some fo_all_pass;
      bo_check_results = some trd_011_bo_results;
      error_message =
          some
            "Custodian HSBC rejected settlement instruction for TRD-011. No further details provided.";
    }
    ∷ record {
      trade_id = "TRD-012";
      workflow_status = TradeWorkflowStatus.bo_agent_to_check;
      counterparty_lei = "529900ATLANTIC000001";
      instrument_id = "USD/JPY";
      currency = "JPY";
      amount = amount 9000000000 2;
      value_date = 739714;
      settlement_currency = "JPY";
      fo_check_results = some fo_all_pass;
      bo_check_results = some trd_012_bo_results;
      error_message =
          some
            "Settlement confirmation not received within SLA window for TRD-012. Status unknown.";
    }
    ∷ record {
      trade_id = "TRD-006";
      workflow_status = TradeWorkflowStatus.initial;
      counterparty_lei = "213800QILIUD4ROSUO03";
      instrument_id = "EUR/USD";
      currency = "EUR";
      amount = amount 20000000 2;
      value_date = 739726;
      settlement_currency = "EUR";
      fo_check_results = none;
      bo_check_results = none;
      error_message = none;
    }
    ∷ record {
      trade_id = "TRD-007";
      workflow_status = TradeWorkflowStatus.initial;
      counterparty_lei = "9695005MSX1OYEMGDF46";
      instrument_id = "GBP/USD";
      currency = "GBP";
      amount = amount 35000000 2;
      value_date = 739726;
      settlement_currency = "GBP";
      fo_check_results = none;
      bo_check_results = none;
      error_message = none;
    }
    ∷ record {
      trade_id = "TRD-014";
      workflow_status = TradeWorkflowStatus.initial;
      counterparty_lei = "9695005MSX1OYEMGDF46";
      instrument_id = "USD/JPY";
      currency = "USD";
      amount = amount 125000000 2;
      value_date = 739741;
      settlement_currency = "USD";
      fo_check_results = none;
      bo_check_results = none;
      error_message = none;
    }
    ∷ record {
      trade_id = "TRD-013";
      workflow_status = TradeWorkflowStatus.bo_agent_to_check;
      counterparty_lei = "9695005MSX1OYEMGDF46";
      instrument_id = "USD/JPY";
      currency = "USD";
      amount = amount 200000000 2;
      value_date = 739737;
      settlement_currency = "USD";
      fo_check_results = some fo_all_pass;
      bo_check_results = some trd_013_bo_results;
      error_message =
          some
            "MT103 rejected by SWIFT. Reason code: AM04. Insufficient funds at correspondent bank. FO liquidity shortfall.";
    }
    ∷ []
