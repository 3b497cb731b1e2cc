-- ===== src/Infrastructure/RuleEngine/Storing.antt =====
-- The runs of the two checks of src/infrastructure/rule_engine.py, given the results of the rules.
use deep_agent_test.Prelude.{
  ◌≡◌, refl, sym, ◌∙◌, ap, false, String, Option, some, List, find_first, update_first,
  find_first-update_first,
}
use mathlib.Core.Path.{subst}
use deep_agent_test.Result.{Result, ok, value_error}
use deep_agent_test.Domain.Entities.{TradeModel, TradeWorkflowStatus, CheckResult}
use deep_agent_test.Domain.Rules.Fo.{fo_rules}
use deep_agent_test.Domain.Rules.Bo.{bo_rules}
use deep_agent_test.Infrastructure.Db.{Session, lift, gets, pure, commit, or_raise, ◌>>=◌}
use deep_agent_test.Infrastructure.Db.Keeps.{bind_ok, gets_step}
use deep_agent_test.Infrastructure.Runtime.{Runtime}
use deep_agent_test.Infrastructure.TradeRepository.{
  get_current, is_current_of, with_status, update_workflow_status,
}
use deep_agent_test.Infrastructure.RuleEngine.{
  run_fo_rules, run_bo_rules, run_fx_calendar_check, append_optional, fo_status, bo_status,
  fo_check_rules, bo_check_rules, is_counterparty, is_ssi,
}

module _ (rt : Runtime) where
  abbrev pub written : String → (TradeModel → TradeModel) → Session → Session
  written t change s = record s {
    work = record s.work { trades = update_first (is_current_of t) change s.work.trades };
  }

  pub update_workflow_status_found :
      (t : String) (status : TradeWorkflowStatus) (extra : TradeModel → TradeModel)
      (trade : TradeModel) (s : Session)
      → find_first (is_current_of t) s.work.trades ≡ some trade
      → update_workflow_status rt t status extra s
        ≡ (ok (some (with_status rt status extra trade)), written t (with_status rt status extra) s)
  unfolding update_workflow_status ◌>>=◌
  update_workflow_status_found t status extra trade s e = rw e refl

  abbrev committed : Session → Session
  committed s = record s { saved = s.work }

  commit-pure :
      (results : List CheckResult) (s : Session)
      → ◌>>=◌ commit (λ _. pure results) s ≡ (ok results, committed s)
  unfolding ◌>>=◌ commit pure
  commit-pure results s = refl

  abbrev pub with_fo_results : List CheckResult → TradeModel → TradeModel
  with_fo_results results =
      with_status rt (fo_status rt results) (λ row. record row { fo_check_results = some results })

  pub checked_fo :
      (t : String) (trade : TradeModel) (checked : List CheckResult) (calendar : Option CheckResult)
      (s : Session)
      → find_first (is_current_of t) s.work.trades ≡ some trade
      → run_fo_rules (fo_rules rt.today) trade s ≡ (ok checked, s)
      → run_fx_calendar_check rt trade ≡ ok calendar
      → ((fo_check_rules rt t s).0 ≡ ok (append_optional rt checked calendar))
        × (find_first (is_current_of t) (fo_check_rules rt t s).1.saved.trades
            ≡ some (with_fo_results (append_optional rt checked calendar) trade))
  unfolding fo_check_rules pure lift
  checked_fo t trade checked calendar s found rules cal =
      let results = append_optional rt checked calendar in
      let run : fo_check_rules rt t s
          ≡ (ok results, committed (written t (with_fo_results results) s)) =
        bind_ok (get_current t) _ s (some trade) s (gets_step _ s (some trade) found)
        ∙ bind_ok (or_raise (some trade) value_error) _ s trade s refl
        ∙ bind_ok (run_fo_rules (fo_rules rt.today) trade) _ s checked s rules
        ∙ bind_ok (lift (run_fx_calendar_check rt trade)) _ s calendar s (ap (λ r. (r, s)) cal)
        ∙ bind_ok (update_workflow_status rt t (fo_status rt results) _) _ s _ _
            (update_workflow_status_found t (fo_status rt results) _ trade s found)
        ∙ commit-pure results _ in
      subst
        (λ (x : Result (List CheckResult) × Session).
          (x.0 ≡ ok results)
          × (find_first (is_current_of t) x.1.saved.trades ≡ some (with_fo_results results trade)))
        (sym run)
        (
          refl,
          find_first-update_first (is_current_of t) (with_fo_results results) s.work.trades
              (λ r. refl) found,
        )

  abbrev pub with_bo_results : List CheckResult → TradeModel → TradeModel
  with_bo_results results =
      with_status rt (bo_status rt results) (λ row. record row { bo_check_results = some results })

  pub checked_bo :
      (t : String) (trade : TradeModel) (checked : List CheckResult) (s : Session)
      → find_first (is_current_of t) s.work.trades ≡ some trade
      → run_bo_rules
          (bo_rules rt.schwifty)
          trade
          (find_first (is_counterparty trade.counterparty_lei) s.work.counterparties)
          (find_first (is_ssi trade.counterparty_lei trade.currency false) s.work.ssis)
          s
        ≡ (ok checked, s)
      → ((bo_check_rules rt t s).0 ≡ ok checked)
        × (find_first (is_current_of t) (bo_check_rules rt t s).1.saved.trades
            ≡ some (with_bo_results checked trade))
  unfolding bo_check_rules pure lift
  checked_bo t trade checked s found rules =
      let cp = find_first (is_counterparty trade.counterparty_lei) s.work.counterparties in
      let ssi = find_first (is_ssi trade.counterparty_lei trade.currency false) s.work.ssis in
      let run : bo_check_rules rt t s
          ≡ (ok checked, committed (written t (with_bo_results checked) s)) =
        bind_ok (get_current t) _ s (some trade) s (gets_step _ s (some trade) found)
        ∙ bind_ok (or_raise (some trade) value_error) _ s trade s refl
        ∙ bind_ok (gets _) _ s cp s (gets_step _ s cp refl)
        ∙ bind_ok (gets _) _ s ssi s (gets_step _ s ssi refl)
        ∙ bind_ok (run_bo_rules (bo_rules rt.schwifty) trade cp ssi) _ s checked s rules
        ∙ bind_ok (update_workflow_status rt t (bo_status rt checked) _) _ s _ _
            (update_workflow_status_found t (bo_status rt checked) _ trade s found)
        ∙ commit-pure checked _ in
      subst
        (λ (x : Result (List CheckResult) × Session).
          (x.0 ≡ ok checked)
          × (find_first (is_current_of t) x.1.saved.trades ≡ some (with_bo_results checked trade)))
        (sym run)
        (
          refl,
          find_first-update_first (is_current_of t) (with_bo_results checked) s.work.trades
              (λ r. refl) found,
        )
