-- ===== src/Infrastructure/Seed/Masters.antt =====
-- The data of src/infrastructure/seed.py, without the times and the identifiers of the rows.
use deep_agent_test.Prelude.{
  ℕ, String, Bool, true, false, Option, none, some, List, [], ◌∷◌, text_eq, if◌then◌else◌,
}
use deep_agent_test.Domain.Numbers.{Decimal, pos}
use deep_agent_test.Domain.Entities.{CounterpartyModel, SettlementInstructionModel}
use deep_agent_test.Domain.Triage.{ReferenceDataModel}

abbrev pub amount : ℕ → ℕ → Decimal
amount coefficient places = record { coefficient = pos coefficient; places = places }

-- `_FX_RATE_BY_INSTRUMENT`
unfoldable pub fx_rates : List (String × Decimal)
fx_rates =
    ("USD/JPY", amount 15125000000 8)
    ∷ ("USDJPY", amount 15125000000 8)
    ∷ ("EUR/USD", amount 108500000 8)
    ∷ ("EURUSD", amount 108500000 8)
    ∷ ("GBP/USD", amount 126500000 8)
    ∷ ("GBPUSD", amount 126500000 8)
    ∷ ("AUD/USD", amount 65500000 8)
    ∷ ("AUDUSD", amount 65500000 8)
    ∷ []

-- `_fx_rate_for`
unfoldable pub rate_in : String → List (String × Decimal) → Decimal
rate_in instrument_id [] = amount 100000000 8
rate_in instrument_id ((instrument, rate) ∷ rates) =
    let more = rate_in instrument_id rates in
    if text_eq instrument instrument_id then rate else more

counterparty : String → String → String → Bool → CounterpartyModel
counterparty lei name bic is_active = record {
  lei = lei;
  name = name;
  bic = bic;
  is_active = is_active;
  updated_at = 0;
}

-- `_COUNTERPARTIES`
unfoldable pub counterparties : List CounterpartyModel
unfolding counterparty
counterparties =
    counterparty "213800QILIUD4ROSUO03" "Acme Bank Ltd" "ACMEGB2L" true
    ∷ counterparty "5493001KJTIIGC8Y1R12" "Global Securities Inc" "GLSBUS33" true
    ∷ counterparty "9695005MSX1OYEMGDF46" "Pacific Finance Corp" "PACFJPJT" true
    ∷ counterparty "213800XYZINACTIVE001" "Zenith Trading Corp" "ZNTHGB2L" false
    ∷ counterparty "254900CUSTBANK000001" "Metro Custody Bank" "MTCUBS33" true
    ∷ counterparty "529900ATLANTIC000001" "Atlantic Finance Ltd" "ATLCGB2L" true
    ∷ []

-- `_REFERENCE_DATA`
unfoldable pub reference_data : List ReferenceDataModel
reference_data =
    record {
      instrument_id = "USD/JPY";
      description = "US Dollar / Japanese Yen";
      asset_class = "FX";
      is_active = true;
    }
    ∷ record {
      instrument_id = "EUR/USD";
      description = "Euro / US Dollar";
      asset_class = "FX";
      is_active = true;
    }
    ∷ record {
      instrument_id = "GBP/USD";
      description = "British Pound / US Dollar";
      asset_class = "FX";
      is_active = true;
    }
    ∷ record {
      instrument_id = "AUD/USD";
      description = "Australian Dollar / US Dollar";
      asset_class = "FX";
      is_active = true;
    }
    ∷ []

ssi : String → String → Bool → String → String → Option String → SettlementInstructionModel
ssi lei currency is_external bic account iban = record {
  id = 0;
  lei = lei;
  currency = currency;
  bic = bic;
  account = account;
  iban = iban;
  is_external = is_external;
  created_at = 0;
  updated_at = 0;
}

-- `_SSIS`
unfoldable pub ssis : List SettlementInstructionModel
unfolding ssi
ssis =
    ssi "5493001KJTIIGC8Y1R12" "EUR" false "GLSBUSS33" "DE89370400440532013000"
      (some "DE89370400440532013000")
    ∷ ssi "9695005MSX1OYEMGDF46" "AUD" false "PACFJPJT" "AU12345678901234" none
    ∷ ssi "9695005MSX1OYEMGDF46" "USD" false "PACFJPJT" "US12345678901234" none
    ∷ ssi "213800QILIUD4ROSUO03" "USD" true "ACMEGB2L" "GB29NWBK60161331926819"
        (some "GB29NWBK60161331926819")
    ∷ ssi "213800QILIUD4ROSUO03" "EUR" false "ACMEGB2L" "GB29NWBK60161331000000"
        (some "GB29NWBK60161331000000")
    ∷ ssi "254900CUSTBANK000001" "GBP" false "MTCUBS33" "GBXX-INVALID-IBAN-9999"
        (some "GBXX-INVALID-IBAN-9999")
    ∷ ssi "529900ATLANTIC000001" "JPY" false "ATLCGB2LXXX" "AT483200000012345864" none
    ∷ ssi "213800XYZINACTIVE001" "USD" false "ZNTHGB2L" "US12345678901234" none
    ∷ []

-- `_APP_SETTINGS`
unfoldable pub app_settings : List (String × String)
app_settings =
    ("fo_check_trigger", "manual")
    ∷ ("bo_check_trigger", "manual")
    ∷ ("fo_triage_trigger", "manual")
    ∷ ("bo_triage_trigger", "manual")
    ∷ []
