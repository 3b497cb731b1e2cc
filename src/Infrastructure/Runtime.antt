-- ===== src/Infrastructure/Runtime.antt =====
-- What the modelled code takes from its surroundings.
use deep_agent_test.Prelude.{ℕ, String, Bool, Option}
use deep_agent_test.Result.{Result}
use deep_agent_test.Domain.Dates.{Date}
use deep_agent_test.Domain.Numbers.{Decimal}
use deep_agent_test.Domain.Entities.{Message, FieldValue}
use deep_agent_test.Infrastructure.Db.{Db}

-- The keys of the calendar tool's JSON answer that the rule engine reads.
pub record CalendarAnswer : Type 0 where
  pub status_ok : Bool
  pub is_business_day : Option Bool
  pub reason : String

pub record Runtime : Type 0 where
  -- `date.today()` and `datetime.now(timezone.utc)`, read once for each request
  pub today : Date
  pub now : ℕ
  -- the package `schwifty`: `none` where the import fails, else whether `IBAN(text)` accepts
  pub schwifty : Option (String → Bool)
  -- `date.fromisoformat` and `Decimal(text)`, `none` where they raise
  pub from_isoformat : String → Option Date
  pub decimal : String → Option Decimal
  -- what the driver and the database make of a value that is no text in a text column
  pub column_cast : FieldValue → Result String
  -- the tool `check_fx_value_date_calendar`, which asks an external server
  pub calendar : String → Date → Result CalendarAnswer
  -- the f-strings of the rules' messages
  pub render : Message → String
  -- the use cases' `start(trade_id, error_context)`, run by a language model in sessions of its
  -- own on the committed database
  pub fo_start : String → String → Db → Result (Unit {0}) × Db
  pub bo_start : String → String → Db → Result (Unit {0}) × Db
