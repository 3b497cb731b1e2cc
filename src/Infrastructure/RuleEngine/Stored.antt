-- ===== src/Infrastructure/RuleEngine/Stored.antt =====
-- What the checks of src/infrastructure/rule_engine.py store on the trade.
use deep_agent_test.Prelude.{
  ◌≡◌, refl, sym, ◌∙◌, ap, false, String, Option, some, List, find_first, ◌+◌, ◌≤◌, ◌++◌, Bool,
  true, not, ◌&&◌, none, [], ◌∷◌, any, text_eq, if◌then◌else◌, Bool-cases, inl, inr,
}
use mathlib.Core.List.{append-nil}
use deep_agent_test.Domain.Dates.{max_ordinal}
use deep_agent_test.Infrastructure.RuleEngine.Storing.{checked_fo, checked_bo, with_fo_results}
use deep_agent_test.Infrastructure.RuleEngine.Answering.{bo_rules_answer}
use deep_agent_test.Infrastructure.RuleEngine.Outcome.{fo_rules-IsSound}
use deep_agent_test.Result.{ok}
use deep_agent_test.Domain.Entities.{
  TradeModel, TradeWorkflowStatus, CheckResult, Severity, error, warning,
}
use deep_agent_test.Domain.Rules.Fo.{fo_rules}
use deep_agent_test.Domain.Rules.Bo.{bo_rules}
use deep_agent_test.Infrastructure.Db.{Session}
use deep_agent_test.Infrastructure.Runtime.{Runtime, CalendarAnswer}
use deep_agent_test.Infrastructure.TradeRepository.{is_current_of}
use deep_agent_test.Infrastructure.RuleEngine.{
  calendar_result, run_fo_rules, run_bo_rules, run_fx_calendar_check, append_optional,
  fo_check_rules, bo_check_rules, is_counterparty, is_ssi, is_failed, is_error, has_errors,
}

-- A failure with severity error.
abbrev pub is_serious : CheckResult → Bool
is_serious r = not r.passed && elim r.severity [ error ↦ true | warning ↦ false ]

is_serious-error : (r : CheckResult) → is_serious r ≡ (is_failed r && is_error r.severity)
is_serious-error r = by_severity r.severity
  where
    by_severity :
        (v : Severity)
        → (not r.passed && elim v [ error ↦ true | warning ↦ false ]) ≡ (is_failed r && is_error v)
    by_severity error = refl
    by_severity warning = refl

any-is_serious : (results : List CheckResult) → has_errors results ≡ any is_serious results
any-is_serious [] = refl
any-is_serious (r ∷ rest) = cc (is_serious-error r, any-is_serious rest)

-- The result of the calendar, if there is one.
abbrev pub as_list : Option CheckResult → List CheckResult
as_list none = []
as_list (some r) = r ∷ []

module _ (rt : Runtime) where
  append-as_list :
      (results : List CheckResult) (o : Option CheckResult)
      → append_optional rt results o ≡ results ++ as_list o
  append-as_list results none = sym (append-nil results)
  append-as_list results (some r) = refl

  calendar_answers :
      (trade : TradeModel) (answer : CalendarAnswer)
      → rt.calendar trade.instrument_id trade.value_date ≡ ok answer
      → (calendar : Option CheckResult) × (run_fx_calendar_check rt trade ≡ ok calendar)
  unfolding run_fx_calendar_check
  calendar_answers trade answer e = elim (Bool-cases (text_eq trade.instrument_id "")) [
    | inl empty ↦ (none, rw empty refl)
    | inr given ↦ (some (calendar_result trade answer answer.is_business_day), rw given (rw e refl))
  ]

  -- FoCheck, up to its commit, of a trade whose trade date is at least 730 days before 9999-12-31
  -- and for which the calendar service returns an answer. Every rule and the calendar check give
  -- their results, the check returns the results of the rules and then that of the calendar, if
  -- there is one, and the committed current version carries them, the time of the request and the
  -- status FoAgentToCheck where one of them failed with severity error, and FoValidated else, and
  -- is unchanged but for that.
  pub fo_check_stored :
      (t : String) (trade : TradeModel) (answer : CalendarAnswer) (s : Session)
      → find_first (is_current_of t) s.work.trades ≡ some trade
      → trade.trade_date + 730 ≤ max_ordinal
      → rt.calendar trade.instrument_id trade.value_date ≡ ok answer
      → (checked : List CheckResult) × (calendar : Option CheckResult) × (run_fo_rules
            (fo_rules rt.today)
            trade
            s
          ≡ (ok checked, s))
        × (run_fx_calendar_check rt trade ≡ ok calendar)
        × ((fo_check_rules rt t s).0 ≡ ok (checked ++ as_list calendar))
        × (find_first (is_current_of t) (fo_check_rules rt t s).1.saved.trades
            ≡ some (record trade {
              workflow_status =
                  if any is_serious (checked ++ as_list calendar)
                  then TradeWorkflowStatus.fo_agent_to_check
                  else TradeWorkflowStatus.fo_validated;
              fo_check_results = some (checked ++ as_list calendar);
              updated_at = rt.now;
            }))
  fo_check_stored t trade answer s found early answered =
      let (checked, ran, _) = fo_rules-IsSound rt.today trade s early in
      let (calendar, cal) = calendar_answers trade answer answered in
      let (returned, kept) = checked_fo rt t trade checked calendar s found ran cal in
      let both = append-as_list checked calendar in
      (
        checked,
        calendar,
        ran,
        cal,
        returned ∙ ap ok both,
        kept
            ∙ ap (λ l. some (with_fo_results rt l trade)) both
            ∙ ap
                (λ (b : Bool). some (record trade {
                  workflow_status =
                      if b
                      then TradeWorkflowStatus.fo_agent_to_check
                      else TradeWorkflowStatus.fo_validated;
                  fo_check_results = some (checked ++ as_list calendar);
                  updated_at = rt.now;
                }))
                (any-is_serious (checked ++ as_list calendar)),
      )

module _ (rt : Runtime) where
  -- BoCheck, up to its commit, of a current version where the package `schwifty` is installed.
  -- Every rule gives a result on the counterparty and the internal settlement instruction of the
  -- database, the check returns the results, and the committed current version carries them, the
  -- time of the request and the status BoAgentToCheck where one of them failed, and Done else, and
  -- is unchanged but for that.
  pub bo_check_stored :
      (t : String) (trade : TradeModel) (accepts : String → Bool) (s : Session)
      → find_first (is_current_of t) s.work.trades ≡ some trade
      → rt.schwifty ≡ some accepts
      → (checked : List CheckResult) × (run_bo_rules
            (bo_rules rt.schwifty)
            trade
            (find_first (λ c. text_eq c.lei trade.counterparty_lei) s.work.counterparties)
            (find_first
              (λ i.
                text_eq i.lei trade.counterparty_lei
                && (text_eq i.currency trade.currency && not i.is_external))
              s.work.ssis)
            s
          ≡ (ok checked, s))
        × ((bo_check_rules rt t s).0 ≡ ok checked)
        × (find_first (is_current_of t) (bo_check_rules rt t s).1.saved.trades
            ≡ some (record trade {
              workflow_status =
                  if any (λ r. not r.passed) checked
                  then TradeWorkflowStatus.bo_agent_to_check
                  else TradeWorkflowStatus.done;
              bo_check_results = some checked;
              updated_at = rt.now;
            }))
  bo_check_stored t trade accepts s found installed =
      let cp = find_first (is_counterparty trade.counterparty_lei) s.work.counterparties in
      let ssi = find_first (is_ssi trade.counterparty_lei trade.currency false) s.work.ssis in
      let (checked, e) = bo_rules_answer accepts trade cp ssi s in
      let ran : run_bo_rules (bo_rules rt.schwifty) trade cp ssi s ≡ (ok checked, s) =
        rw installed e in
      let (returned, kept) = checked_bo rt t trade checked s found ran in
      (checked, ran, returned, kept)
