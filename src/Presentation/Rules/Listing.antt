-- ===== src/Presentation/Rules/Listing.antt =====
-- The list of src/presentation/routers/rules.py and the rules that
-- src/infrastructure/rule_engine.py runs.
use deep_agent_test.Prelude.{
  ◌≡◌, refl, ap, ◌∙◌, String, Bool, not, Option, List, [], ◌∷◌, map, select, text_eq,
}
use mathlib.Core.Path.{subst}
use deep_agent_test.Result.{Result, ok, err}
use deep_agent_test.Domain.Dates.{Date}
use deep_agent_test.Domain.Entities.{
  TradeModel, CounterpartyModel, SettlementInstructionModel, CheckResult, Severity,
}
use deep_agent_test.Domain.Rules.Fo.{FoRule, Verdict, fo_rules}
use deep_agent_test.Domain.Rules.Bo.{BoRule, bo_rules}
use deep_agent_test.Infrastructure.Db.{Session, Exec, lift, pure, ◌>>=◌}
use deep_agent_test.Infrastructure.RuleEngine.{run_fo_rules, run_bo_rules, to_result}
use deep_agent_test.Presentation.Rules.{RuleOut, list_rules}

abbrev pub result_key : CheckResult → String × Severity
result_key r = (r.rule_name, r.severity)

abbrev pub out_key : RuleOut → String × Severity
out_key r = (r.rule_name, r.severity)

abbrev is_calendar : RuleOut → Bool
is_calendar r = text_eq r.rule_name "value_date_business_calendar"

-- The listed rules of FoCheck but the calendar's, which the engine runs apart from the table.
abbrev pub tabled : List RuleOut → List RuleOut
tabled = select (λ r. not (is_calendar r))

fo_key : FoRule → String × Severity
fo_key rule = (rule.rule_name, rule.severity)

bo_key : BoRule → String × Severity
bo_key rule = (rule.rule_name, rule.severity)

fo_table : (today : Date) → map fo_key (fo_rules today) ≡ map out_key (tabled list_rules.fo_rules)
unfolding fo_key fo_rules list_rules
fo_table today = refl

bo_table :
    (schwifty : Option (String → Bool))
    → map bo_key (bo_rules schwifty) ≡ map out_key list_rules.bo_rules
unfolding bo_key bo_rules list_rules
bo_table schwifty = refl

-- The results, where the run raises nothing, have these names and severities.
abbrev pub HasKeys : List (String × Severity) → Result (List CheckResult) → Type 0
HasKeys keys (ok results) = map result_key results ≡ keys
HasKeys keys (err e) = Unit

module _ (name : String) (severity : Severity) (keys : List (String × Severity)) where
  abbrev add : Verdict → Exec (List CheckResult) → Exec (List CheckResult)
  add verdict m = do rest ← m; pure (to_result name severity verdict ∷ rest)

  add-HasKeys :
      (verdict : Verdict) (r : Result (List CheckResult)) (s : Session)
      → HasKeys keys r
      → HasKeys ((name, severity) ∷ keys) (add verdict (lift r) s).0
  unfolding lift pure ◌>>=◌
  add-HasKeys verdict (ok results) s h = ap (λ l. (name, severity) ∷ l) h
  add-HasKeys verdict (err e) s h = tt

  rule-HasKeys :
      (v : Result Verdict) (m : Exec (List CheckResult)) (s : Session)
      → HasKeys keys (m s).0
      → HasKeys ((name, severity) ∷ keys) (◌>>=◌ (lift v) (λ verdict. add verdict m) s).0
  unfolding lift pure add-HasKeys ◌>>=◌
  rule-HasKeys (ok verdict) m s h = add-HasKeys verdict (m s).0 (m s).1 h
  rule-HasKeys (err e) m s h = tt

module _ (trade : TradeModel) where
  fo-HasKeys :
      (rules : List FoRule) (s : Session)
      → HasKeys (map fo_key rules) (run_fo_rules rules trade s).0
  unfolding fo_key run_fo_rules lift pure
  fo-HasKeys [] s = refl
  fo-HasKeys (rule ∷ rules) s =
      rule-HasKeys rule.rule_name rule.severity (map fo_key rules) (rule.check_fn trade)
        (run_fo_rules rules trade) s (fo-HasKeys rules s)

  bo-HasKeys :
      (rules : List BoRule) (cp : Option CounterpartyModel)
      (ssi : Option SettlementInstructionModel) (s : Session)
      → HasKeys (map bo_key rules) (run_bo_rules rules trade cp ssi s).0
  unfolding bo_key run_bo_rules lift pure
  bo-HasKeys [] cp ssi s = refl
  bo-HasKeys (rule ∷ rules) cp ssi s =
      rule-HasKeys rule.rule_name rule.severity (map bo_key rules) (rule.check_fn trade cp ssi)
        (run_bo_rules rules trade cp ssi) s (bo-HasKeys rules cp ssi s)

  -- If the run of the rules of FoCheck returns `fo` and that of BoCheck returns `bo`, then the
  -- results of `fo` have, in this order, the names and the severities of the rules that the API
  -- lists for FO, but the calendar's; and those of `bo` have the names and the severities of the
  -- rules that it lists for BO.
  pub results_listed :
      (today : Date) (schwifty : Option (String → Bool)) (cp : Option CounterpartyModel)
      (ssi : Option SettlementInstructionModel) (s : Session) (fo bo : List CheckResult)
      → (run_fo_rules (fo_rules today) trade s).0 ≡ ok fo
      → (run_bo_rules (bo_rules schwifty) trade cp ssi s).0 ≡ ok bo
      → (map result_key fo ≡ map out_key (tabled list_rules.fo_rules))
        × (map result_key bo ≡ map out_key list_rules.bo_rules)
  results_listed today schwifty cp ssi s fo bo e f = (
    subst (HasKeys (map fo_key (fo_rules today))) e (fo-HasKeys (fo_rules today) s)
        ∙ fo_table today,
    subst (HasKeys (map bo_key (bo_rules schwifty))) f (bo-HasKeys (bo_rules schwifty) cp ssi s)
        ∙ bo_table schwifty,
  )
