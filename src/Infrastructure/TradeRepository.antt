-- ===== src/Infrastructure/TradeRepository.antt =====
-- src/infrastructure/db/trade_repository.py.
pub mod Writes
pub mod Allocation
pub mod Listing
use deep_agent_test.Prelude.{
  ℕ, ◌+◌, String, Bool, false, not, ◌&&◌, Option, none, some, List, [], ◌∷◌, ◌++◌, map, any,
  find_first, update_first, text_eq, ◌==◌, if◌then◌else◌,
}
use deep_agent_test.Result.{
  Result, ok, err, value_error, type_error, invalid_operation, integrity_error, database_error,
}
use deep_agent_test.Domain.Dates.{Date}
use deep_agent_test.Domain.Numbers.{Decimal}
use deep_agent_test.Domain.Classification.{calculate_trade_type}
use deep_agent_test.Domain.Entities.{
  TradeModel, TradeWorkflowStatus, FieldValue, date_value, decimal_value, text_value, bool_value,
}
use deep_agent_test.Infrastructure.Columns.{fits_trade, rounded}
use deep_agent_test.Infrastructure.Db.{
  Exec, raise_if, or_raise, pure, raise, lift, gets, modify, ◌>>=◌, ◌>>◌,
}
use deep_agent_test.Infrastructure.Runtime.{Runtime}

abbrev pub Fields : Type 0
Fields = List (String × FieldValue)

-- `fields.get(key)` on a JSON object.
abbrev pub field : String → Fields → Option FieldValue
field key [] = none
field key ((k, v) ∷ rest) = let more = field key rest in if text_eq k key then some v else more

abbrev pub is_current_of : String → TradeModel → Bool
is_current_of trade_id row = text_eq row.trade_id trade_id && row.is_current

abbrev pub or_empty : Option Fields → Fields
or_empty none = []
or_empty (some fields) = fields

abbrev pub has_version : String → ℕ → TradeModel → Bool
has_version trade_id version row = text_eq row.trade_id trade_id && row.version == version

-- `get_by_trade_id`, and its alias `get_current`.
abbrev pub get_current : String → Exec (Option TradeModel)
get_current trade_id = gets (λ db. find_first (is_current_of trade_id) db.trades)

module _ (rt : Runtime) where
  coerce_text : Option Date → Result Date
  coerce_text none = err value_error
  coerce_text (some d) = ok d

  coerce_date : FieldValue → Result Date
  unfolding coerce_text
  coerce_date (date_value d) = ok d
  coerce_date (text_value s) = coerce_text (rt.from_isoformat s)
  coerce_date _ = err type_error

  parsed_decimal : Option Decimal → Result Decimal
  parsed_decimal none = err invalid_operation
  parsed_decimal (some d) = ok d

  -- A Boolean is an `int`, and `Decimal("True")` raises.
  coerce_decimal : FieldValue → Result Decimal
  unfolding parsed_decimal
  coerce_decimal (decimal_value d) = ok d
  coerce_decimal (text_value s) = parsed_decimal (rt.decimal s)
  coerce_decimal (bool_value b) = err invalid_operation
  coerce_decimal _ = err type_error

abbrev or_default : {A : Type 0} → (FieldValue → Result A) → Option FieldValue → A → Result A
or_default coerce none current = ok current
or_default coerce (some v) current = coerce v

-- What the flush makes of a JSON value in a text column: a text is kept, and the rest is up to the
-- driver and the database.
column_text : (FieldValue → Result String) → FieldValue → Result String
column_text cast (text_value s) = ok s
column_text cast v = cast v

-- What `db.add(row)` and the flush do: the columns' bounds and the UNIQUE constraint on
-- (trade_id, version).
abbrev pub add_version : TradeModel → Exec (Unit {0})
add_version row = do
  taken ← gets (λ db. any (has_version row.trade_id row.version) db.trades)
  if taken
      then raise integrity_error
      else modify (λ db. record db { trades = db.trades ++ row ∷ [] })

abbrev pub insert_trade : TradeModel → Exec (Unit {0})
insert_trade row = do raise_if (not (fits_trade row)) database_error; add_version row

module _ (rt : Runtime) where
  unfoldable pub create_next_version : String → Option Fields → Exec TradeModel
  unfolding coerce_date coerce_decimal column_text
  create_next_version trade_id amended_fields = do
    found ← get_current trade_id
    current ← or_raise found value_error
    let fields = or_empty amended_fields
    trade_date ← lift (or_default (coerce_date rt) (field "trade_date" fields) current.trade_date)
    value_date ← lift (or_default (coerce_date rt) (field "value_date" fields) current.value_date)
    amount ← lift (or_default (coerce_decimal rt) (field "amount" fields) current.amount)
    fx_rate ← lift (or_default (coerce_decimal rt) (field "fx_rate" fields) current.fx_rate)
    trade_type ← lift (calculate_trade_type trade_date value_date)
    lei ← lift (
        or_default (column_text rt.column_cast) (field "counterparty_lei" fields)
          current.counterparty_lei)
    instrument_id ← lift (
        or_default (column_text rt.column_cast) (field "instrument_id" fields)
          current.instrument_id)
    currency ←
        lift (or_default (column_text rt.column_cast) (field "currency" fields) current.currency)
    settlement_currency ← lift (
        or_default (column_text rt.column_cast) (field "settlement_currency" fields)
          current.settlement_currency)
    let new_row : TradeModel = record {
      trade_id = trade_id;
      version = current.version + 1;
      workflow_status = TradeWorkflowStatus.event_pending;
      is_current = false;
      counterparty_lei = lei;
      instrument_id = instrument_id;
      currency = currency;
      amount = rounded 5 amount;
      fx_rate = rounded 8 fx_rate;
      trade_type = trade_type;
      value_date = value_date;
      trade_date = trade_date;
      input_date = rt.today;
      settlement_currency = settlement_currency;
      sendback_count = 0;
      fo_check_results = none;
      bo_check_results = none;
      bo_sendback_reason = none;
      fo_explanation = none;
      created_at = rt.now;
      updated_at = rt.now;
    }
    insert_trade new_row
    pure new_row

  -- One round of the loop of `activate_version`.
  abbrev pub activate_row : String → ℕ → TradeModel → TradeModel
  activate_row trade_id version row =
      if text_eq row.trade_id trade_id
      then record row { is_current = row.version == version; updated_at = rt.now }
      else row

  -- The target is the row of that version; the UNIQUE constraint leaves at most one.
  unfoldable pub activate_version : String → ℕ → Exec (Option TradeModel)
  activate_version trade_id version = do
    modify (λ db. record db { trades = map (activate_row trade_id version) db.trades })
    gets (λ db. find_first (has_version trade_id version) db.trades)

  abbrev pub with_status : TradeWorkflowStatus → (TradeModel → TradeModel) → TradeModel → TradeModel
  with_status status extra row =
      extra (record row { workflow_status = status; updated_at = rt.now })

  abbrev pub set_current_row :
      String → (TradeModel → TradeModel) → Option TradeModel → Exec (Option TradeModel)
  set_current_row trade_id change none = pure none
  set_current_row trade_id change (some row) = do
    modify (λ db. record db { trades = update_first (is_current_of trade_id) change db.trades })
    pure (some (change row))

  -- `**kwargs` is the argument `extra`, which sets further attributes.
  unfoldable pub update_workflow_status :
      String → TradeWorkflowStatus → (TradeModel → TradeModel) → Exec (Option TradeModel)
  update_workflow_status trade_id status extra = do
    row ← get_current trade_id
    set_current_row trade_id (with_status status extra) row
