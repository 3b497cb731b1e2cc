-- ===== src/Tests/Checks.antt =====
-- The rule engine on the sample database.
use deep_agent_test.Prelude.{
  ◌≡◌, ◌↔◌, refl, any, not, ◌++◌, if◌then◌else◌, ap, map, arith, true, false, Option, none, some,
  List, [], find_first,
}
use deep_agent_test.Result.{Result, ok, err}
use deep_agent_test.Domain.Entities.{CheckResult, TradeModel, TradeWorkflowStatus}
use deep_agent_test.Domain.Rules.Fo.{fo_rules}
use deep_agent_test.Domain.Rules.Bo.{bo_rules}
use deep_agent_test.Domain.Text.{contains}
use deep_agent_test.Infrastructure.Db.{Session, ◌>>=◌}
use deep_agent_test.Infrastructure.TradeRepository.{is_current_of}
use deep_agent_test.Infrastructure.RuleEngine.{
  run_fo_rules, run_bo_rules, run_fx_calendar_check, has_errors, fo_check_rules, bo_check_rules,
}
use deep_agent_test.Infrastructure.RuleEngine.Outcome.{IsSound, fo_rules-IsSound}
use deep_agent_test.Infrastructure.RuleEngine.Stored.{
  fo_check_stored, bo_check_stored, is_serious, as_list,
}
use deep_agent_test.Presentation.Rules.{list_rules}
use deep_agent_test.Presentation.Rules.Listing.{result_key, out_key, tabled, results_listed}
use deep_agent_test.Tests.{sample, surroundings, trade_row, counterparty_row, ssi_row}

abbrev trade : TradeModel
trade = trade_row "T3" 1 true TradeWorkflowStatus.done

abbrev session : Session
session = record { work = sample; saved = sample }

fo_rules-IsSound_example :
    (results : List CheckResult) × (run_fo_rules (fo_rules 739735) trade session
      ≡ (ok results, session))
    × ((has_errors results ≡ false) ↔ IsSound 739735 trade)
fo_rules-IsSound_example = fo_rules-IsSound 739735 trade session (omega arith)

abbrev results_of : Result (List CheckResult) → List CheckResult
results_of (ok results) = results
results_of (err e) = []

abbrev calendar_of : Result (Option CheckResult) → Option CheckResult
calendar_of (ok r) = r
calendar_of (err e) = none

unfoldable fo_results : List CheckResult
unfolding run_fo_rules fo_rules ◌>>=◌
fo_results = results_of (run_fo_rules (fo_rules 739735) trade session).0

fo_answers : run_fo_rules (fo_rules 739735) trade session ≡ (ok fo_results, session)
unfolding fo_results run_fo_rules fo_rules ◌>>=◌ contains
fo_answers = refl

fo_check_stored_example :
    (checked : List CheckResult) × (calendar : Option CheckResult) × (run_fo_rules
        (fo_rules 739735)
        trade
        session
      ≡ (ok checked, session))
    × (run_fx_calendar_check surroundings trade ≡ ok calendar)
    × ((fo_check_rules surroundings "T3" session).0 ≡ ok (checked ++ as_list calendar))
    × (find_first (is_current_of "T3") (fo_check_rules surroundings "T3" session).1.saved.trades
        ≡ some (record trade {
          workflow_status =
              if any is_serious (checked ++ as_list calendar)
              then TradeWorkflowStatus.fo_agent_to_check
              else TradeWorkflowStatus.fo_validated;
          fo_check_results = some (checked ++ as_list calendar);
          updated_at = 5;
        }))
fo_check_stored_example =
    fo_check_stored surroundings "T3" trade
      (record { status_ok = true; is_business_day = some true; reason = "open" }) session refl
      (omega arith) refl

unfoldable bo_results : List CheckResult
unfolding run_bo_rules bo_rules ◌>>=◌
bo_results =
    results_of
      (run_bo_rules (bo_rules surroundings.schwifty) trade (some counterparty_row) (some ssi_row)
        session).0

bo_answers :
    run_bo_rules
      (bo_rules surroundings.schwifty)
      trade
      (some counterparty_row)
      (some ssi_row)
      session
    ≡ (ok bo_results, session)
unfolding bo_results run_bo_rules bo_rules ◌>>=◌
bo_answers = refl

bo_check_stored_example :
    (checked : List CheckResult) × (run_bo_rules
        (bo_rules surroundings.schwifty)
        trade
        (some counterparty_row)
        (some ssi_row)
        session
      ≡ (ok checked, session))
    × ((bo_check_rules surroundings "T3" session).0 ≡ ok checked)
    × (find_first (is_current_of "T3") (bo_check_rules surroundings "T3" session).1.saved.trades
        ≡ some (record trade {
          workflow_status =
              if any (λ r. not r.passed) checked
              then TradeWorkflowStatus.bo_agent_to_check
              else TradeWorkflowStatus.done;
          bo_check_results = some checked;
          updated_at = 5;
        }))
bo_check_stored_example = bo_check_stored surroundings "T3" trade (λ iban. true) session refl refl

results_listed_example :
    (map result_key fo_results ≡ map out_key (tabled list_rules.fo_rules))
    × (map result_key bo_results ≡ map out_key list_rules.bo_rules)
results_listed_example =
    results_listed trade 739735 surroundings.schwifty (some counterparty_row) (some ssi_row) session
      fo_results bo_results (ap (λ x. x.0) fo_answers) (ap (λ x. x.0) bo_answers)
