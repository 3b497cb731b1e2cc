-- ===== src/Presentation/Rules.antt =====
-- src/presentation/routers/rules.py: the rules as the API lists them.
pub mod Listing
use deep_agent_test.Prelude.{String, Bool, true, false, List, [], ◌∷◌}
use deep_agent_test.Domain.Entities.{Severity}

pub record RuleOut : Type 0 where
  pub rule_name : String
  pub severity : Severity
  pub check_type : String
  pub description : String
  pub is_stub : Bool

listed : String → Severity → String → Bool → String → RuleOut
listed rule_name severity check_type is_stub description = record {
  rule_name = rule_name;
  severity = severity;
  check_type = check_type;
  description = description;
  is_stub = is_stub;
}

-- `_FO_RULES`
unfoldable pub fo_rules_out : List RuleOut
unfolding listed
fo_rules_out =
    listed "trade_date_not_future" Severity.error "FO" false
      "Ensures the trade date is not in the future. A future trade date likely indicates a data entry error."
    ∷ listed "trade_date_not_weekend" Severity.error "FO" false
        "Ensures the trade date falls on a weekday (Monday–Friday). FX markets operate on business days only."
    ∷ listed "value_date_after_trade_date" Severity.error "FO" false
        "Ensures the value date is strictly after the trade date."
    ∷ listed "value_date_not_weekend" Severity.error "FO" false
        "Ensures the value date falls on a weekday (Monday–Friday). Settlement cannot occur on a weekend."
    ∷ listed "value_date_not_past" Severity.error "FO" false
        "Ensures the value date is not earlier than today. A past value date cannot be settled."
    ∷ listed "value_date_settlement_cycle" Severity.warning "FO" false
        "Ensures the value date is at least T+2 from the trade date, conforming to the standard FX settlement cycle (SWIFT convention)."
    ∷ listed "value_date_business_calendar" Severity.error "FO" true
        "Planned (not yet implemented in the rule engine): will use the MCP calendar server to verify the FX value date is open in both currencies' representative holiday calendars."
    ∷ listed "value_date_within_max_tenor" Severity.warning "FO" false
        "Ensures the value date does not exceed the maximum settlement tenor (about two years). A value date beyond it likely indicates a data-entry error."
    ∷ listed "amount_positive" Severity.error "FO" false
        "Ensures the trade amount is greater than zero. A zero or negative amount is invalid."
    ∷ listed "settlement_currency_consistency" Severity.error "FO" false
        "Ensures the settlement currency appears within the instrument ID (e.g. EURUSD). Validates alignment between the currency pair and the settlement currency."
    ∷ listed "counterparty_exists" Severity.error "FO" true
        "Counterparty existence check (stub). Actual validation is performed by the BoCheck counterparty_exists rule."
    ∷ listed "instrument_exists" Severity.error "FO" true
        "Instrument existence check (stub). Actual validation is performed at BoCheck."
    ∷ []

-- `_BO_RULES`
unfoldable pub bo_rules_out : List RuleOut
unfolding listed
bo_rules_out =
    listed "counterparty_exists" Severity.error "BO" false
      "Ensures the counterparty LEI is registered in master data."
    ∷ listed "counterparty_active" Severity.error "BO" false
        "Ensures the counterparty is currently active. Transactions with inactive counterparties are rejected (equivalent to SWIFT AG01)."
    ∷ listed "ssi_exists" Severity.error "BO" false
        "Ensures an internal SSI (Settlement Standing Instruction) is registered for the given LEI and currency. A missing SSI prevents settlement (equivalent to SWIFT AC01)."
    ∷ listed "bic_format_valid" Severity.error "BO" false
        "Ensures the BIC code in the SSI is either 8 or 11 characters long (SWIFT standard)."
    ∷ listed "iban_format_valid" Severity.error "BO" false
        "Validates the IBAN in the SSI: structure check ([A-Z]{2}[0-9]{2}[A-Z0-9]{1,30}) plus ISO 13616 mod-97 checksum verification (via schwifty). Equivalent to SWIFT BE01."
    ∷ listed "risk_limit_check" Severity.error "BO" true
        "Ensures the trade amount is within the counterparty's risk limit (stub — always passes)."
    ∷ listed "compliance_check" Severity.error "BO" true
        "Ensures the counterparty meets sanctions list and compliance requirements (stub — always passes)."
    ∷ listed "settlement_confirmed" Severity.error "BO" true
        "Confirms that SWIFT settlement confirmation was received (stub). Pre-seeded bo_check_results can simulate AC01 / AM04 / SLA timeout rejection scenarios."
    ∷ []

pub record RuleListResponse : Type 0 where
  pub fo_rules : List RuleOut
  pub bo_rules : List RuleOut

unfoldable pub list_rules : RuleListResponse
unfolding fo_rules_out bo_rules_out
list_rules = record { fo_rules = fo_rules_out; bo_rules = bo_rules_out }
