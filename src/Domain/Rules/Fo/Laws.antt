-- ===== src/Domain/Rules/Fo/Laws.antt =====
-- What the FoCheck rules of src/domain/check_rules.py answer, as Boolean tests of the trade.
use deep_agent_test.Prelude.{
  ℕ, ◌+◌, ◌≤◌, ◌≡◌, refl, Bool, true, false, not, leb, ltb, if◌then◌else◌, le→leb,
}
use deep_agent_test.Result.{Result, ok}
use deep_agent_test.Domain.Dates.{Date, weekday, max_ordinal, add_days}
use deep_agent_test.Domain.Numbers.{le_zero}
use deep_agent_test.Domain.Text.{codes, contains}
use deep_agent_test.Domain.Entities.{Message, TradeModel}
use deep_agent_test.Domain.Rules.Fo.{
  Verdict, trade_date_not_future, trade_date_not_weekend, value_date_not_weekend,
  value_date_after_trade_date, value_date_not_past, value_date_settlement_cycle,
  value_date_within_max_tenor, amount_positive, settlement_currency_consistency,
  counterparty_exists_fo, instrument_exists_fo,
}

-- The rule answers `b`, with some message.
pub record Answers (r : Result Verdict) (b : Bool) : Type 0 where
  pub message : Message
  pub says : r ≡ ok (b, message)

refuses : (b : Bool) (m n : Message) → Answers (if b then ok (false, m) else ok (true, n)) (not b)
refuses true m n = record { message = m; says = refl }
refuses false m n = record { message = n; says = refl }

accepts : (b : Bool) (m n : Message) → Answers (if b then ok (true, m) else ok (false, n)) b
accepts true m n = record { message = m; says = refl }
accepts false m n = record { message = n; says = refl }

add_days_ok : (d : Date) (n : ℕ) → d + n ≤ max_ordinal → add_days d n ≡ ok (d + n)
unfolding add_days
add_days_ok d n h = rw (le→leb (d + n) max_ordinal h)

module _ (trade : TradeModel) where
  pub trade_date_not_future_lem :
      Answers (trade_date_not_future trade) (not (ltb trade.input_date trade.trade_date))
  unfolding trade_date_not_future
  trade_date_not_future_lem = refuses (ltb trade.input_date trade.trade_date) _ _

  pub trade_date_not_weekend_lem :
      Answers (trade_date_not_weekend trade) (not (leb 5 (weekday trade.trade_date)))
  unfolding trade_date_not_weekend
  trade_date_not_weekend_lem = refuses (leb 5 (weekday trade.trade_date)) _ _

  pub value_date_not_weekend_lem :
      Answers (value_date_not_weekend trade) (not (leb 5 (weekday trade.value_date)))
  unfolding value_date_not_weekend
  value_date_not_weekend_lem = refuses (leb 5 (weekday trade.value_date)) _ _

  pub value_date_after_trade_date_lem :
      Answers (value_date_after_trade_date trade) (not (leb trade.value_date trade.trade_date))
  unfolding value_date_after_trade_date
  value_date_after_trade_date_lem = refuses (leb trade.value_date trade.trade_date) _ _

  pub value_date_not_past_lem :
      (today : Date) → Answers (value_date_not_past today trade) (not (ltb trade.value_date today))
  unfolding value_date_not_past
  value_date_not_past_lem today = refuses (ltb trade.value_date today) _ _

  pub amount_positive_lem : Answers (amount_positive trade) (not (le_zero trade.amount))
  unfolding amount_positive
  amount_positive_lem = refuses (le_zero trade.amount) _ _

  pub settlement_currency_consistency_lem :
      Answers
        (settlement_currency_consistency trade)
        (contains (codes trade.instrument_id) (codes trade.settlement_currency))
  unfolding settlement_currency_consistency
  settlement_currency_consistency_lem =
      accepts (contains (codes trade.instrument_id) (codes trade.settlement_currency)) _ _

  pub value_date_settlement_cycle_lem :
      trade.trade_date + 2 ≤ max_ordinal
      → Answers
          (value_date_settlement_cycle trade)
          (not (ltb trade.value_date (trade.trade_date + 2)))
  unfolding value_date_settlement_cycle
  value_date_settlement_cycle_lem h =
      rw (add_days_ok trade.trade_date 2 h)
        (refuses (ltb trade.value_date (trade.trade_date + 2)) _ _)

  pub value_date_within_max_tenor_lem :
      trade.trade_date + 730 ≤ max_ordinal
      → Answers
          (value_date_within_max_tenor trade)
          (not (ltb (trade.trade_date + 730) trade.value_date))
  unfolding value_date_within_max_tenor
  value_date_within_max_tenor_lem h =
      rw (add_days_ok trade.trade_date 730 h)
        (refuses (ltb (trade.trade_date + 730) trade.value_date) _ _)

  pub counterparty_exists_fo_lem : Answers (counterparty_exists_fo trade) true
  unfolding counterparty_exists_fo
  counterparty_exists_fo_lem = record { message = _; says = refl }

  pub instrument_exists_fo_lem : Answers (instrument_exists_fo trade) true
  unfolding instrument_exists_fo
  instrument_exists_fo_lem = record { message = _; says = refl }
