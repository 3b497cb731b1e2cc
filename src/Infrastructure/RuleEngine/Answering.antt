-- ===== src/Infrastructure/RuleEngine/Answering.antt =====
-- The rules of BoCheck all answer where `schwifty` is installed (src/infrastructure/rule_engine.py).
use deep_agent_test.Prelude.{◌≡◌, refl, ◌∙◌, ap, String, Option, some, List, Bool, [], ◌∷◌}
use deep_agent_test.Domain.Rules.Bo.Answers.{
  Says, counterparty_exists-Says, counterparty_active-Says, ssi_exists-Says, bic_format_valid-Says,
  iban_format_valid-Says, risk_limit_check-Says, compliance_check-Says, settlement_confirmed-Says,
}
use deep_agent_test.Result.{ok}
use deep_agent_test.Domain.Entities.{
  TradeModel, CheckResult, CounterpartyModel, SettlementInstructionModel,
}
use deep_agent_test.Domain.Rules.Bo.{BoRule, bo_rules}
use deep_agent_test.Infrastructure.Db.{Session, lift, pure}
use deep_agent_test.Infrastructure.Db.Keeps.{bind_ok}
use deep_agent_test.Infrastructure.RuleEngine.{run_bo_rules, to_result}

no_rules :
    (trade : TradeModel) (cp : Option CounterpartyModel) (ssi : Option SettlementInstructionModel)
    (s : Session)
    → (rs : List CheckResult) × (run_bo_rules [] trade cp ssi s ≡ (ok rs, s))
unfolding run_bo_rules pure
no_rules trade cp ssi s = ([], refl)

answered_step :
    (rule : BoRule) (rules : List BoRule) (trade : TradeModel) (cp : Option CounterpartyModel)
    (ssi : Option SettlementInstructionModel) (s : Session)
    → Says (rule.check_fn trade cp ssi)
    → ((rs : List CheckResult) × (run_bo_rules rules trade cp ssi s ≡ (ok rs, s)))
    → (rs : List CheckResult) × (run_bo_rules (rule ∷ rules) trade cp ssi s ≡ (ok rs, s))
unfolding run_bo_rules lift pure
answered_step rule rules trade cp ssi s a (rs, e) = (
  to_result rule.rule_name rule.severity a.verdict ∷ rs,
  bind_ok (lift (rule.check_fn trade cp ssi)) _ s a.verdict s (ap (λ r. (r, s)) a.says)
      ∙ bind_ok (run_bo_rules rules trade cp ssi) _ s rs s e,
)

pub bo_rules_answer :
    (accepts : String → Bool) (trade : TradeModel) (cp : Option CounterpartyModel)
    (ssi : Option SettlementInstructionModel) (s : Session)
    → (rs : List CheckResult) × (run_bo_rules (bo_rules (some accepts)) trade cp ssi s ≡ (ok rs, s))
unfolding bo_rules
bo_rules_answer accepts trade cp ssi s =
    let step = λ (rule : BoRule) (rules : List BoRule). answered_step rule rules trade cp ssi s in
    step _ _ (counterparty_exists-Says trade cp ssi) (
      step _ _ (counterparty_active-Says trade cp ssi) (
        step _ _ (ssi_exists-Says trade cp ssi) (
          step _ _ (bic_format_valid-Says trade cp ssi) (
            step _ _ (iban_format_valid-Says trade accepts cp ssi) (
              step _ _ (risk_limit_check-Says trade cp ssi) (
                step _ _ (compliance_check-Says trade cp ssi) (
                  step _ _ (settlement_confirmed-Says trade cp ssi) (no_rules trade cp ssi s))))))))
