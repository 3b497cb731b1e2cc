-- ===== src/Domain/Rules/Fo.antt =====
-- The FoCheck rules of src/domain/check_rules.py. `date.today()` is the argument `today`.
pub mod Laws
use deep_agent_test.Prelude.{ℕ, String, Bool, true, false, List, [], ◌∷◌, leb, ltb, if◌then◌else◌}
use deep_agent_test.Result.{Result, ok, ◌>>=◌}
use deep_agent_test.Domain.Dates.{Date, weekday, add_days}
use deep_agent_test.Domain.Numbers.{le_zero}
use deep_agent_test.Domain.Text.{codes, contains}
use deep_agent_test.Domain.Entities.{Message, Severity, error, warning, TradeModel}

-- What a rule answers: whether it passed, and why.
abbrev pub Verdict : Type 0
Verdict = Bool × Message

pub record FoRule : Type 0 where
  pub rule_name : String
  pub severity : Severity
  pub check_fn : TradeModel → Result Verdict

pub trade_date_not_future : TradeModel → Result Verdict
trade_date_not_future trade =
    if ltb trade.input_date trade.trade_date
    then ok (false, Message.trade_date_after_input trade.trade_date trade.input_date)
    else ok (true, Message.trade_date_not_after_input trade.trade_date trade.input_date)

pub trade_date_not_weekend : TradeModel → Result Verdict
trade_date_not_weekend trade =
    if leb 5 (weekday trade.trade_date)
    then ok (false, Message.trade_date_on_weekend trade.trade_date (weekday trade.trade_date))
    else ok (true, Message.trade_date_is_business_day trade.trade_date)

pub value_date_not_weekend : TradeModel → Result Verdict
value_date_not_weekend trade =
    if leb 5 (weekday trade.value_date)
    then ok (false, Message.value_date_on_weekend trade.value_date (weekday trade.value_date))
    else ok (true, Message.value_date_is_business_day trade.value_date)

pub value_date_after_trade_date : TradeModel → Result Verdict
value_date_after_trade_date trade =
    if leb trade.value_date trade.trade_date
    then ok (false, Message.value_date_not_after_trade trade.value_date trade.trade_date)
    else ok (true, Message.value_date_is_after_trade trade.value_date trade.trade_date)

pub value_date_not_past : Date → TradeModel → Result Verdict
value_date_not_past today trade =
    if ltb trade.value_date today
    then ok (false, Message.value_date_in_past trade.value_date today)
    else ok (true, Message.value_date_is_not_past trade.value_date)

pub value_date_settlement_cycle : TradeModel → Result Verdict
unfolding add_days
value_date_settlement_cycle trade = do
  min_vd ← add_days trade.trade_date 2
  if ltb trade.value_date min_vd
      then ok (false, Message.earlier_than_t2 trade.value_date min_vd)
      else ok (true, Message.meets_t2 trade.value_date)

abbrev pub max_settlement_tenor_days : ℕ
max_settlement_tenor_days = 730

pub value_date_within_max_tenor : TradeModel → Result Verdict
unfolding add_days
value_date_within_max_tenor trade = do
  max_vd ← add_days trade.trade_date max_settlement_tenor_days
  if ltb max_vd trade.value_date
      then ok (false, Message.exceeds_max_tenor trade.value_date max_settlement_tenor_days max_vd)
      else ok (true, Message.within_max_tenor trade.value_date max_settlement_tenor_days)

pub amount_positive : TradeModel → Result Verdict
amount_positive trade =
    if le_zero trade.amount
    then ok (false, Message.amount_not_positive trade.amount)
    else ok (true, Message.amount_is_positive trade.amount)

pub settlement_currency_consistency : TradeModel → Result Verdict
settlement_currency_consistency trade =
    if contains (codes trade.instrument_id) (codes trade.settlement_currency)
    then ok
        (true, Message.settlement_currency_consistent trade.settlement_currency trade.instrument_id)
    else ok
        (false, Message.settlement_currency_absent trade.settlement_currency trade.instrument_id)

pub counterparty_exists_fo : TradeModel → Result Verdict
counterparty_exists_fo trade = ok (true, Message.counterparty_skipped)

pub instrument_exists_fo : TradeModel → Result Verdict
instrument_exists_fo trade = ok (true, Message.instrument_skipped)

-- `FO_RULES`
unfoldable pub fo_rules : Date → List FoRule
unfolding trade_date_not_future trade_date_not_weekend value_date_not_weekend
    value_date_after_trade_date value_date_not_past value_date_settlement_cycle
    value_date_within_max_tenor amount_positive settlement_currency_consistency
    counterparty_exists_fo instrument_exists_fo
fo_rules today =
    rule "trade_date_not_future" error trade_date_not_future
    ∷ rule "trade_date_not_weekend" error trade_date_not_weekend
    ∷ rule "value_date_after_trade_date" error value_date_after_trade_date
    ∷ rule "value_date_not_weekend" error value_date_not_weekend
    ∷ rule "value_date_not_past" error (value_date_not_past today)
    ∷ rule "value_date_settlement_cycle" warning value_date_settlement_cycle
    ∷ rule "value_date_within_max_tenor" warning value_date_within_max_tenor
    ∷ rule "amount_positive" error amount_positive
    ∷ rule "settlement_currency_consistency" error settlement_currency_consistency
    ∷ rule "counterparty_exists" error counterparty_exists_fo
    ∷ rule "instrument_exists" error instrument_exists_fo
    ∷ []
  where
    rule : String → Severity → (TradeModel → Result Verdict) → FoRule
    rule name severity check = record { rule_name = name; severity = severity; check_fn = check }
