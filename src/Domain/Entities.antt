-- ===== src/Domain/Entities.antt =====
-- src/domain/entities.py and the rows of src/infrastructure/db/models.py that the program's core
-- reads and writes. A status column holds a text in the database; every text that the program
-- writes there is a member of the enumeration, so the rows hold the enumeration.
use deep_agent_test.Prelude.{ℕ, String, Bool, Option, List}
use deep_agent_test.Domain.Dates.{Date}
use deep_agent_test.Domain.Numbers.{Decimal}
use deep_agent_test.Domain.Classification.{TradeType}

pub data TradeWorkflowStatus : Type 0 where
  initial fo_check fo_agent_to_check fo_user_to_validate fo_validated : TradeWorkflowStatus
  bo_check bo_agent_to_check bo_user_to_validate bo_validated : TradeWorkflowStatus
  done cancelled event_pending : TradeWorkflowStatus

pub data EventType : Type 0 where
  amend cancel : EventType

pub data EventWorkflowStatus : Type 0 where
  fo_user_to_validate fo_validated bo_user_to_validate bo_validated : EventWorkflowStatus
  done cancelled : EventWorkflowStatus

pub data RootCause : Type 0 where
  missing_ssi bic_format_error invalid_value_date instrument_not_found : RootCause
  counterparty_not_found swift_ac01 swift_ag01 iban_format_error compound_failure : RootCause
  unknown : RootCause

pub data Severity : Type 0 where
  error warning : Severity

-- The texts that the rules compose, one constructor for each f-string, with what it quotes.
pub data Message : Type 0 where
  trade_date_after_input trade_date_not_after_input : Date → Date → Message
  trade_date_on_weekend value_date_on_weekend : Date → ℕ → Message
  trade_date_is_business_day value_date_is_business_day : Date → Message
  value_date_not_after_trade value_date_is_after_trade : Date → Date → Message
  value_date_in_past : Date → Date → Message
  value_date_is_not_past : Date → Message
  earlier_than_t2 : Date → Date → Message
  meets_t2 : Date → Message
  exceeds_max_tenor : Date → ℕ → Date → Message
  within_max_tenor : Date → ℕ → Message
  amount_not_positive amount_is_positive : Decimal → Message
  settlement_currency_absent settlement_currency_consistent : String → String → Message
  counterparty_skipped instrument_skipped : Message
  counterparty_missing counterparty_found : String → Message
  counterparty_unverified : Message
  counterparty_inactive : String → String → Message
  counterparty_is_active : String → Message
  ssi_missing ssi_found : String → String → Message
  bic_skipped : Message
  bic_bad_length bic_good_length : String → ℕ → Message
  no_iban : Message
  iban_no_match iban_verified iban_rejected iban_bad_checksum iban_verified_locally :
      String → Message
  risk_limit_passed compliance_passed settlement_stub : Message
  calendar_open : String → Message
  calendar_closed : Date → String → String → Message
  calendar_unavailable : String → String → Message
  -- a text that the seed data gives
  seeded : String → Message

pub record CheckResult : Type 0 where
  pub rule_name : String
  pub passed : Bool
  pub severity : Severity
  pub message : Message

-- A row of `trades`.
pub record TradeModel : Type 0 where
  pub trade_id : String
  pub version : ℕ
  pub workflow_status : TradeWorkflowStatus
  pub is_current : Bool
  pub counterparty_lei : String
  pub instrument_id : String
  pub currency : String
  pub amount : Decimal
  pub fx_rate : Decimal
  pub trade_type : TradeType
  pub value_date : Date
  pub trade_date : Date
  pub input_date : Date
  pub settlement_currency : String
  pub sendback_count : ℕ
  pub fo_check_results : Option (List CheckResult)
  pub bo_check_results : Option (List CheckResult)
  pub bo_sendback_reason : Option String
  pub fo_explanation : Option String
  pub created_at : ℕ
  pub updated_at : ℕ

-- A row of `counterparties`.
pub record CounterpartyModel : Type 0 where
  pub lei : String
  pub name : String
  pub bic : String
  pub is_active : Bool
  pub updated_at : ℕ

-- A row of `settlement_instructions`.
pub record SettlementInstructionModel : Type 0 where
  pub id : ℕ
  pub lei : String
  pub currency : String
  pub bic : String
  pub account : String
  pub iban : Option String
  pub is_external : Bool
  pub created_at : ℕ
  pub updated_at : ℕ

-- A value of the JSON object `amended_fields`.
pub data FieldValue : Type 0 where
  date_value : Date → FieldValue
  decimal_value : Decimal → FieldValue
  text_value : String → FieldValue
  bool_value : Bool → FieldValue
  -- null, a list or an object
  other_value : FieldValue

-- A row of `trade_events`. The identifier stands for the UUID.
pub record TradeEventModel : Type 0 where
  pub id : ℕ
  pub trade_id : String
  pub from_version : ℕ
  pub to_version : ℕ
  pub event_type : EventType
  pub workflow_status : EventWorkflowStatus
  pub requested_by : String
  pub reason : Option String
  pub amended_fields : Option (List (String × FieldValue))
  pub created_at : ℕ
  pub updated_at : ℕ
