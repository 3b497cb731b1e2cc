-- ===== src/Infrastructure/Seed/FoResults.antt =====
-- The results of FoCheck that src/infrastructure/seed.py gives.
use deep_agent_test.Prelude.{String, Bool, true, false, List, [], ◌∷◌}
use deep_agent_test.Domain.Entities.{CheckResult, Severity, Message}

unfoldable pub result : String → Bool → Severity → String → CheckResult
result rule_name passed severity message = record {
  rule_name = rule_name;
  passed = passed;
  severity = severity;
  message = Message.seeded message;
}

unfoldable pub fo_all_pass : List CheckResult
unfolding result
fo_all_pass =
    result "trade_date_not_future" true Severity.error
      "Trade date 2026-04-01 is not after input date 2026-04-01"
    ∷ result "trade_date_not_weekend" true Severity.error "Trade date 2026-04-01 is a business day"
    ∷ result "value_date_after_trade_date" true Severity.error
        "Value date 2026-04-08 is after trade date 2026-04-01"
    ∷ result "value_date_not_past" true Severity.error "Value date 2026-04-08 is not in the past"
    ∷ result "value_date_settlement_cycle" true Severity.warning
        "Value date 2026-04-08 meets T+2 settlement cycle"
    ∷ result "amount_positive" true Severity.error "Amount is positive"
    ∷ result "settlement_currency_consistency" true Severity.error
        "Settlement currency is consistent with instrument"
    ∷ result "counterparty_exists" true Severity.error
        "Counterparty pre-check skipped (stub; validated at BoCheck)"
    ∷ result "instrument_exists" true Severity.error
        "Instrument pre-check skipped (stub; validated at BoCheck)"
    ∷ []

unfoldable pub trd_004_fo_results : List CheckResult
unfolding result
trd_004_fo_results =
    result "trade_date_not_future" true Severity.error
      "Trade date 2026-04-01 is not after input date 2026-04-01"
    ∷ result "trade_date_not_weekend" true Severity.error "Trade date 2026-04-01 is a business day"
    ∷ result "value_date_after_trade_date" false Severity.error
        "Value date 2024-01-01 must be strictly after trade date 2026-04-01"
    ∷ result "value_date_not_past" false Severity.error
        "Value date 2024-01-01 is in the past (today: 2026-04-01)"
    ∷ result "value_date_settlement_cycle" false Severity.warning
        "Value date 2024-01-01 is earlier than T+2 (2026-04-03) — FX standard settlement cycle"
    ∷ result "amount_positive" true Severity.error "Amount 750000.00 is positive"
    ∷ result "settlement_currency_consistency" true Severity.error
        "Settlement currency 'AUD' is consistent with instrument 'AUDUSD'"
    ∷ result "counterparty_exists" true Severity.error
        "Counterparty pre-check skipped (stub; validated at BoCheck)"
    ∷ result "instrument_exists" true Severity.error
        "Instrument pre-check skipped (stub; validated at BoCheck)"
    ∷ []

unfoldable pub trd_005_fo_results : List CheckResult
unfolding result
trd_005_fo_results =
    result "trade_date_not_future" true Severity.error
      "Trade date 2026-04-01 is not after input date 2026-04-01"
    ∷ result "trade_date_not_weekend" true Severity.error "Trade date 2026-04-01 is a business day"
    ∷ result "value_date_after_trade_date" true Severity.error
        "Value date 2026-04-08 is after trade date 2026-04-01"
    ∷ result "value_date_not_past" true Severity.error "Value date 2026-04-08 is not in the past"
    ∷ result "value_date_settlement_cycle" true Severity.warning
        "Value date 2026-04-08 meets T+2 settlement cycle"
    ∷ result "amount_positive" true Severity.error "Amount 100000.00 is positive"
    ∷ result "settlement_currency_consistency" false Severity.error
        "Settlement currency 'USD' does not appear in instrument 'UNKNOWN_CCY_PAIR'"
    ∷ result "counterparty_exists" true Severity.error
        "Counterparty pre-check skipped (stub; validated at BoCheck)"
    ∷ result "instrument_exists" false Severity.error
        "Instrument 'UNKNOWN_CCY_PAIR' not found in reference data"
    ∷ []
