-- ===== src/Infrastructure/Seed/BoResults.antt =====
-- The results of BoCheck that src/infrastructure/seed.py gives.
use deep_agent_test.Prelude.{true, false, List, [], ◌∷◌}
use deep_agent_test.Domain.Entities.{CheckResult, Severity}
use deep_agent_test.Infrastructure.Seed.FoResults.{result}

unfoldable pub trd_001_bo_results : List CheckResult
unfolding result
trd_001_bo_results =
    result "counterparty_exists" true Severity.error
      "Counterparty '213800QILIUD4ROSUO03' exists in master data"
    ∷ result "counterparty_active" true Severity.error
        "Counterparty '213800QILIUD4ROSUO03' is active"
    ∷ result "ssi_exists" false Severity.error
        "No internal SSI registered for LEI '213800QILIUD4ROSUO03' / currency 'USD'"
    ∷ result "bic_format_valid" true Severity.error "No SSI present — BIC check skipped"
    ∷ result "iban_format_valid" true Severity.error "No IBAN to validate"
    ∷ result "risk_limit_check" true Severity.error "Risk limit check passed (stub — always passes)"
    ∷ result "compliance_check" true Severity.error
        "Compliance / sanctions check passed (stub — always passes)"
    ∷ result "settlement_confirmed" true Severity.error
        "Settlement confirmation stub — always passes"
    ∷ []

unfoldable pub trd_002_bo_results : List CheckResult
unfolding result
trd_002_bo_results =
    result "counterparty_exists" true Severity.error
      "Counterparty '5493001KJTIIGC8Y1R12' exists in master data"
    ∷ result "counterparty_active" true Severity.error
        "Counterparty '5493001KJTIIGC8Y1R12' is active"
    ∷ result "ssi_exists" true Severity.error
        "Internal SSI found for LEI '5493001KJTIIGC8Y1R12' / currency 'EUR'"
    ∷ result "bic_format_valid" false Severity.error
        "BIC 'GLSBUSS33' must be 8 or 11 characters (actual: 9)"
    ∷ result "iban_format_valid" true Severity.error
        "IBAN 'DE89370400440532013000' has valid format"
    ∷ result "risk_limit_check" true Severity.error "Risk limit check passed (stub — always passes)"
    ∷ result "compliance_check" true Severity.error
        "Compliance / sanctions check passed (stub — always passes)"
    ∷ result "settlement_confirmed" true Severity.error
        "Settlement confirmation stub — always passes"
    ∷ []

unfoldable pub trd_003_bo_results : List CheckResult
unfolding result
trd_003_bo_results =
    result "counterparty_exists" false Severity.error
      "Counterparty LEI 'UNKNOWNLEI000000001' not found in master data"
    ∷ result "counterparty_active" false Severity.error
        "Counterparty not found — cannot verify active status"
    ∷ result "ssi_exists" false Severity.error
        "No internal SSI registered for LEI 'UNKNOWNLEI000000001' / currency 'GBP'"
    ∷ result "bic_format_valid" true Severity.error "No SSI present — BIC check skipped"
    ∷ result "iban_format_valid" true Severity.error "No IBAN to validate"
    ∷ result "risk_limit_check" true Severity.error "Risk limit check passed (stub — always passes)"
    ∷ result "compliance_check" true Severity.error
        "Compliance / sanctions check passed (stub — always passes)"
    ∷ result "settlement_confirmed" true Severity.error
        "Settlement confirmation stub — always passes"
    ∷ []

unfoldable pub trd_008_bo_results : List CheckResult
unfolding result
trd_008_bo_results =
    result "counterparty_exists" true Severity.error
      "Counterparty '213800QILIUD4ROSUO03' exists in master data"
    ∷ result "counterparty_active" true Severity.error
        "Counterparty '213800QILIUD4ROSUO03' is active"
    ∷ result "ssi_exists" true Severity.error
        "Internal SSI found for LEI '213800QILIUD4ROSUO03' / currency 'EUR'"
    ∷ result "bic_format_valid" true Severity.error "BIC 'ACMEGB2L' has valid length (8 chars)"
    ∷ result "iban_format_valid" true Severity.error
        "IBAN 'GB29NWBK60161331000000' has valid format"
    ∷ result "risk_limit_check" true Severity.error "Risk limit check passed (stub — always passes)"
    ∷ result "compliance_check" true Severity.error
        "Compliance / sanctions check passed (stub — always passes)"
    ∷ result "settlement_confirmed" false Severity.error
        "MT103 rejected by SWIFT: AC01 — incorrect account number. Sender BIC: ACMEGB2L."
    ∷ []

unfoldable pub trd_009_bo_results : List CheckResult
unfolding result
trd_009_bo_results =
    result "counterparty_exists" true Severity.error
      "Counterparty '213800XYZINACTIVE001' exists in master data"
    ∷ result "counterparty_active" false Severity.error
        "Counterparty '213800XYZINACTIVE001' (Zenith Trading Corp) is inactive"
    ∷ result "ssi_exists" true Severity.error
        "Internal SSI found for LEI '213800XYZINACTIVE001' / currency 'USD'"
    ∷ result "bic_format_valid" true Severity.error "BIC 'ZNTHGB2L' has valid length (8 chars)"
    ∷ result "iban_format_valid" true Severity.error "No IBAN to validate"
    ∷ result "risk_limit_check" true Severity.error "Risk limit check passed (stub — always passes)"
    ∷ result "compliance_check" true Severity.error
        "Compliance / sanctions check passed (stub — always passes)"
    ∷ result "settlement_confirmed" true Severity.error
        "Settlement confirmation stub — always passes"
    ∷ []

unfoldable pub trd_010_bo_results : List CheckResult
unfolding result
trd_010_bo_results =
    result "counterparty_exists" true Severity.error
      "Counterparty '213800XYZINACTIVE001' exists in master data"
    ∷ result "counterparty_active" false Severity.error
        "Counterparty '213800XYZINACTIVE001' (Zenith Trading Corp) is inactive"
    ∷ result "ssi_exists" false Severity.error
        "No internal SSI registered for LEI '213800XYZINACTIVE001' / currency 'GBP'"
    ∷ result "bic_format_valid" true Severity.error "No SSI present — BIC check skipped"
    ∷ result "iban_format_valid" true Severity.error "No IBAN to validate"
    ∷ result "risk_limit_check" true Severity.error "Risk limit check passed (stub — always passes)"
    ∷ result "compliance_check" true Severity.error
        "Compliance / sanctions check passed (stub — always passes)"
    ∷ result "settlement_confirmed" true Severity.error
        "Settlement confirmation stub — always passes"
    ∷ []

unfoldable pub trd_011_bo_results : List CheckResult
unfolding result
trd_011_bo_results =
    result "counterparty_exists" true Severity.error
      "Counterparty '254900CUSTBANK000001' exists in master data"
    ∷ result "counterparty_active" true Severity.error
        "Counterparty '254900CUSTBANK000001' is active"
    ∷ result "ssi_exists" true Severity.error
        "Internal SSI found for LEI '254900CUSTBANK000001' / currency 'GBP'"
    ∷ result "bic_format_valid" true Severity.error "BIC 'MTCUBS33' has valid length (8 chars)"
    ∷ result "iban_format_valid" false Severity.error
        "IBAN 'GBXX-INVALID-IBAN-9999' does not match [A-Z]{2}[0-9]{2}[A-Z0-9]{1,30}"
    ∷ result "risk_limit_check" true Severity.error "Risk limit check passed (stub — always passes)"
    ∷ result "compliance_check" true Severity.error
        "Compliance / sanctions check passed (stub — always passes)"
    ∷ result "settlement_confirmed" true Severity.error
        "Settlement confirmation stub — always passes"
    ∷ []

unfoldable pub trd_012_bo_results : List CheckResult
unfolding result
trd_012_bo_results =
    result "counterparty_exists" true Severity.error
      "Counterparty '529900ATLANTIC000001' exists in master data"
    ∷ result "counterparty_active" true Severity.error
        "Counterparty '529900ATLANTIC000001' is active"
    ∷ result "ssi_exists" true Severity.error
        "Internal SSI found for LEI '529900ATLANTIC000001' / currency 'JPY'"
    ∷ result "bic_format_valid" true Severity.error "BIC 'ATLCGB2LXXX' has valid length (11 chars)"
    ∷ result "iban_format_valid" true Severity.error "No IBAN to validate"
    ∷ result "risk_limit_check" true Severity.error "Risk limit check passed (stub — always passes)"
    ∷ result "compliance_check" true Severity.error
        "Compliance / sanctions check passed (stub — always passes)"
    ∷ result "settlement_confirmed" false Severity.error
        "Settlement confirmation not received within SLA window. BIC ATLCGB2LXXX may be expired."
    ∷ []

unfoldable pub trd_013_bo_results : List CheckResult
unfolding result
trd_013_bo_results =
    result "counterparty_exists" true Severity.error
      "Counterparty '9695005MSX1OYEMGDF46' exists in master data"
    ∷ result "counterparty_active" true Severity.error
        "Counterparty '9695005MSX1OYEMGDF46' is active"
    ∷ result "ssi_exists" true Severity.error
        "Internal SSI found for LEI '9695005MSX1OYEMGDF46' / currency 'USD'"
    ∷ result "bic_format_valid" true Severity.error "BIC 'PACFJPJT' has valid length (8 chars)"
    ∷ result "iban_format_valid" true Severity.error "No IBAN to validate"
    ∷ result "risk_limit_check" true Severity.error "Risk limit check passed (stub — always passes)"
    ∷ result "compliance_check" true Severity.error
        "Compliance / sanctions check passed (stub — always passes)"
    ∷ result "settlement_confirmed" false Severity.error
        "MT103 rejected by SWIFT: AM04 — insufficient funds at correspondent bank. FO liquidity shortfall."
    ∷ []
