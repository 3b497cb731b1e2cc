-- ===== src/Infrastructure/RuleEngine/Outcome.antt =====
-- What the rules that src/infrastructure/rule_engine.py runs for FoCheck find.
use deep_agent_test.Prelude.{
  ◌+◌, ◌≤◌, ◌<◌, ◌≡◌, ◌↔◌, refl, ◌∙◌, ap, Bool, true, false, not, ◌&&◌, ◌||◌, List, [], ◌∷◌, leb,
  ltb, arith,
}
use deep_agent_test.Result.{ok}
use deep_agent_test.Domain.Dates.{Date, weekday, max_ordinal}
use deep_agent_test.Domain.Numbers.{le_zero}
use deep_agent_test.Domain.Text.{codes, contains}
use deep_agent_test.Domain.Entities.{TradeModel, CheckResult}
use deep_agent_test.Domain.Rules.Fo.{FoRule, fo_rules}
use deep_agent_test.Domain.Rules.Fo.Laws.{
  Answers, trade_date_not_future_lem, trade_date_not_weekend_lem, value_date_not_weekend_lem,
  value_date_after_trade_date_lem, value_date_not_past_lem, amount_positive_lem,
  settlement_currency_consistency_lem, value_date_settlement_cycle_lem,
  value_date_within_max_tenor_lem, counterparty_exists_fo_lem, instrument_exists_fo_lem,
}
use deep_agent_test.Infrastructure.Db.{Session, lift, pure}
use deep_agent_test.Infrastructure.Db.Keeps.{bind_ok}
use deep_agent_test.Infrastructure.RuleEngine.{run_fo_rules, has_errors, to_result}

-- What a trade must be for FoCheck to pass.
pub record IsSound (today : Date) (trade : TradeModel) : Type 0 where
  pub traded_by_input : trade.trade_date ≤ trade.input_date
  pub trade_weekday : weekday trade.trade_date < 5
  pub settles_later : trade.trade_date < trade.value_date
  pub value_weekday : weekday trade.value_date < 5
  pub not_past : today ≤ trade.value_date
  pub positive : le_zero trade.amount ≡ false
  pub currency_of_pair :
      contains (codes trade.instrument_id) (codes trade.settlement_currency) ≡ true

no_rules : (trade : TradeModel) (s : Session) → run_fo_rules [] trade s ≡ (ok [], s)
unfolding run_fo_rules pure
no_rules trade s = refl

verdict_step :
    (rule : FoRule) (rules : List FoRule) (trade : TradeModel) (s : Session) (b : Bool)
    (rest : List CheckResult) (a : Answers (rule.check_fn trade) b)
    → run_fo_rules rules trade s ≡ (ok rest, s)
    → run_fo_rules (rule ∷ rules) trade s
      ≡ (ok (to_result rule.rule_name rule.severity (b, a.message) ∷ rest), s)
unfolding run_fo_rules lift pure
verdict_step rule rules trade s b rest a e =
    bind_ok (lift (rule.check_fn trade)) _ s (b, a.message) s (ap (λ r. (r, s)) a.says)
    ∙ bind_ok (run_fo_rules rules trade) _ s rest s e

-- The list of results, by its nine tests.
abbrev found : Bool → Bool → Bool → Bool → Bool → Bool → Bool → Bool → Bool → Bool
found a b c d e w v f g =
    not a && true
    || (not b && true
        || (not c && true
            || (not d && true
                || (not e && true
                    || (not w && false
                        || (not v && false || (not f && true || (not g && true || false))))))))

all_hold :
    (a b c d e w v f g : Bool)
    → (found a b c d e w v f g ≡ false) ↔ ((a && (b && (c && (d && (e && (f && g)))))) ≡ true)
all_hold false b c d e w v f g = ground arith
all_hold true false c d e w v f g = ground arith
all_hold true true false d e w v f g = ground arith
all_hold true true true false e w v f g = ground arith
all_hold true true true true false w v f g = ground arith
all_hold true true true true true w v f g = ground arith

IsSound-tests :
    (today : Date) (trade : TradeModel)
    → ((not (ltb trade.input_date trade.trade_date)
          && (not (leb 5 (weekday trade.trade_date))
              && (not (leb trade.value_date trade.trade_date)
                  && (not (leb 5 (weekday trade.value_date))
                      && (not (ltb trade.value_date today)
                          && (not (le_zero trade.amount)
                              && contains
                                  (codes trade.instrument_id)
                                  (codes trade.settlement_currency)))))))
        ≡ true)
      ↔ IsSound today trade
IsSound-tests today trade = (
  λ e. record {
    traded_by_input = ground arith;
    trade_weekday = ground arith;
    settles_later = ground arith;
    value_weekday = ground arith;
    not_past = ground arith;
    positive = ground arith;
    currency_of_pair = ground arith;
  },
  λ h. ground (
    arith, h.traded_by_input, h.trade_weekday, h.settles_later, h.value_weekday, h.not_past,
    h.positive, h.currency_of_pair,
  ),
)

IsSound-found :
    (today : Date) (trade : TradeModel) (w v : Bool)
    → (found
          (not (ltb trade.input_date trade.trade_date))
          (not (leb 5 (weekday trade.trade_date)))
          (not (leb trade.value_date trade.trade_date))
          (not (leb 5 (weekday trade.value_date)))
          (not (ltb trade.value_date today))
          w
          v
          (not (le_zero trade.amount))
          (contains (codes trade.instrument_id) (codes trade.settlement_currency))
        ≡ false)
      ↔ IsSound today trade
IsSound-found today trade w v =
    let bits =
      all_hold (not (ltb trade.input_date trade.trade_date))
        (not (leb 5 (weekday trade.trade_date))) (not (leb trade.value_date trade.trade_date))
        (not (leb 5 (weekday trade.value_date))) (not (ltb trade.value_date today)) w v
        (not (le_zero trade.amount))
        (contains (codes trade.instrument_id) (codes trade.settlement_currency)) in
    (λ e. (IsSound-tests today trade).0 (bits.0 e), λ h. bits.1 ((IsSound-tests today trade).1 h))

-- On a trade whose trade date is at least 730 days before 9999-12-31 the rules of FoCheck all
-- answer. They find no error exactly where the trade date is not after the input date, both dates
-- are weekdays, the value date is after the trade date and not past, the amount is positive and
-- the instrument contains the settlement currency; the rules on T+2 and on the longest tenor only
-- warn.
pub fo_rules-IsSound :
    (today : Date) (trade : TradeModel) (s : Session)
    → trade.trade_date + 730 ≤ max_ordinal
    → (results : List CheckResult) × (run_fo_rules (fo_rules today) trade s ≡ (ok results, s))
      × ((has_errors results ≡ false) ↔ IsSound today trade)
unfolding fo_rules
fo_rules-IsSound today trade s h =
    let w = not (ltb trade.value_date (trade.trade_date + 2)) in
    let v = not (ltb (trade.trade_date + 730) trade.value_date) in
    (
      _,
      verdict_step _ _ trade s _ _ (trade_date_not_future_lem trade) (
          verdict_step _ _ trade s _ _ (trade_date_not_weekend_lem trade) (
            verdict_step _ _ trade s _ _ (value_date_after_trade_date_lem trade) (
              verdict_step _ _ trade s _ _ (value_date_not_weekend_lem trade) (
                verdict_step _ _ trade s _ _ (value_date_not_past_lem trade today) (
                  verdict_step _ _ trade s _ _
                    (value_date_settlement_cycle_lem trade (omega (arith, h)))
                    (verdict_step _ _ trade s _ _ (value_date_within_max_tenor_lem trade h) (
                      verdict_step _ _ trade s _ _ (amount_positive_lem trade) (
                        verdict_step _ _ trade s _ _ (settlement_currency_consistency_lem trade) (
                          verdict_step _ _ trade s _ _ (counterparty_exists_fo_lem trade) (
                            verdict_step _ _ trade s _ _ (instrument_exists_fo_lem trade)
                              (no_rules trade s))))))))))),
      IsSound-found today trade w v,
    )
