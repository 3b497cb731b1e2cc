-- ===== src/Infrastructure/RuleEngine.antt =====
-- src/infrastructure/rule_engine.py: FoCheck and BoCheck, their results on the trade, and the
-- automatic triage after a failed check.
pub mod Keeping
pub mod Outcome
pub mod Storing
pub mod Answering
pub mod Stored
use deep_agent_test.Prelude.{
  String, Bool, true, false, not, ◌&&◌, Option, none, some, List, [], ◌∷◌, ◌++◌, any, find_first,
  text_eq, if◌then◌else◌,
}
use deep_agent_test.Result.{Result, ok, err, value_error}
use Prim.Native.String.{◌++◌ as ◌<>◌}
use deep_agent_test.Domain.Entities.{
  TradeModel, TradeWorkflowStatus, CheckResult, Severity, error, warning, Message,
  CounterpartyModel, SettlementInstructionModel,
}
use deep_agent_test.Domain.Rules.Fo.{FoRule, Verdict, fo_rules}
use deep_agent_test.Domain.Rules.Bo.{BoRule, bo_rules}
use deep_agent_test.Infrastructure.Db.{
  Db, Exec, or_raise, when, pure, lift, gets, commit, attempt, ◌>>=◌, ◌>>◌,
}
use deep_agent_test.Infrastructure.Runtime.{Runtime, CalendarAnswer}
use deep_agent_test.Infrastructure.TradeRepository.{get_current, update_workflow_status}
use deep_agent_test.Infrastructure.EventRepository.{is_auto}

abbrev pub is_failed : CheckResult → Bool
is_failed r = not r.passed

abbrev pub is_error : Severity → Bool
is_error error = true
is_error warning = false

abbrev pub to_result : String → Severity → Verdict → CheckResult
to_result name severity (passed, message) = record {
  rule_name = name;
  passed = passed;
  severity = severity;
  message = message;
}

-- The loop over `FO_RULES`; a rule that raises ends it.
unfoldable pub run_fo_rules : List FoRule → TradeModel → Exec (List CheckResult)
run_fo_rules [] trade = pure []
run_fo_rules (rule ∷ rules) trade = do
  verdict ← lift (rule.check_fn trade)
  rest ← run_fo_rules rules trade
  pure (to_result rule.rule_name rule.severity verdict ∷ rest)

unfoldable pub run_bo_rules :
    List BoRule
    → TradeModel
    → Option CounterpartyModel
    → Option SettlementInstructionModel
    → Exec (List CheckResult)
run_bo_rules [] trade cp ssi = pure []
run_bo_rules (rule ∷ rules) trade cp ssi = do
  verdict ← lift (rule.check_fn trade cp ssi)
  rest ← run_bo_rules rules trade cp ssi
  pure (to_result rule.rule_name rule.severity verdict ∷ rest)

-- Only failures of severity `error` count for FoCheck.
abbrev pub has_errors : List CheckResult → Bool
has_errors results = any (λ r. is_failed r && is_error r.severity) results

-- `str.join` of the lines "[rule_name] message" with newlines between them.
abbrev join_lines : List String → String
join_lines [] = ""
join_lines (line ∷ []) = line
join_lines (line ∷ next ∷ rest) = line <> "\n" <> join_lines (next ∷ rest)

abbrev calendar_rule : Bool → Severity → Message → CheckResult
calendar_rule passed severity message = record {
  rule_name = "value_date_business_calendar";
  passed = passed;
  severity = severity;
  message = message;
}

-- The three outcomes of `_run_fx_calendar_check`, by `status` and `is_business_day`.
pub calendar_result : TradeModel → CalendarAnswer → Option Bool → CheckResult
calendar_result trade answer (some true) =
    if answer.status_ok
    then calendar_rule true error (Message.calendar_open answer.reason)
    else calendar_rule false warning
        (Message.calendar_unavailable trade.instrument_id answer.reason)
calendar_result trade answer (some false) =
    if answer.status_ok
    then calendar_rule false error
        (Message.calendar_closed trade.value_date trade.instrument_id answer.reason)
    else calendar_rule false warning
        (Message.calendar_unavailable trade.instrument_id answer.reason)
calendar_result trade answer none =
    calendar_rule false warning (Message.calendar_unavailable trade.instrument_id answer.reason)

-- A use case's `start` works on the committed database; afterwards the session reads it anew.
abbrev pub start_triage : (Db → Result (Unit {0}) × Db) → Exec (Unit {0})
start_triage start s = let (r, db) = start s.saved in (r, record { work = db; saved = db })

abbrev pub is_counterparty : String → CounterpartyModel → Bool
is_counterparty lei cp = text_eq cp.lei lei

abbrev pub is_ssi : String → String → Bool → SettlementInstructionModel → Bool
is_ssi lei currency external ssi =
    text_eq ssi.lei lei
    && (text_eq ssi.currency currency
        && (if external then ssi.is_external else not ssi.is_external))

module _ (rt : Runtime) where
  -- The lines of `_build_error_context`.
  error_lines : List CheckResult → List String
  error_lines [] = []
  error_lines (r ∷ rest) =
      let more = error_lines rest in
      if is_failed r then ("[" <> r.rule_name <> "] " <> rt.render r.message) ∷ more else more

  pub build_error_context : List CheckResult → String
  unfolding error_lines
  build_error_context results = join_lines (error_lines results)

  -- `_run_fx_calendar_check`: a trade without an instrument is not looked up.
  unfoldable pub run_fx_calendar_check : TradeModel → Result (Option CheckResult)
  unfolding calendar_result
  run_fx_calendar_check trade =
      if text_eq trade.instrument_id ""
      then ok none
      else elim (rt.calendar trade.instrument_id trade.value_date) [
        | ok answer ↦ ok (some (calendar_result trade answer answer.is_business_day))
        | err e ↦ err e
      ]

  abbrev pub append_optional : List CheckResult → Option CheckResult → List CheckResult
  append_optional results none = results
  append_optional results (some r) = results ++ r ∷ []

  abbrev pub fo_status : List CheckResult → TradeWorkflowStatus
  fo_status results =
      if has_errors results
      then TradeWorkflowStatus.fo_agent_to_check
      else TradeWorkflowStatus.fo_validated

  -- The part of `run_fo_check` up to the commit.
  unfoldable pub fo_check_rules : String → Exec (List CheckResult)
  unfolding run_fo_rules run_fx_calendar_check
  fo_check_rules trade_id = do
    found ← get_current trade_id
    trade ← or_raise found value_error
    checked ← run_fo_rules (fo_rules rt.today) trade
    calendar ← lift (run_fx_calendar_check trade)
    let results = append_optional checked calendar
    update_workflow_status rt trade_id (fo_status results)
        (λ row. record row { fo_check_results = some results })
    commit
    pure results

  unfoldable pub run_fo_check : String → Exec (List CheckResult × TradeWorkflowStatus)
  unfolding fo_check_rules
  run_fo_check trade_id = do
    results ← fo_check_rules trade_id
    auto ← is_auto "fo_triage_trigger"
    when (has_errors results && auto)
        (attempt (start_triage (rt.fo_start trade_id (build_error_context results))))
    pure (results, fo_status results)

  abbrev pub bo_status : List CheckResult → TradeWorkflowStatus
  bo_status results =
      if any is_failed results
      then TradeWorkflowStatus.bo_agent_to_check
      else TradeWorkflowStatus.done

  -- The part of `run_bo_check` up to the commit.
  unfoldable pub bo_check_rules : String → Exec (List CheckResult)
  unfolding run_bo_rules
  bo_check_rules trade_id = do
    found ← get_current trade_id
    trade ← or_raise found value_error
    cp ← gets (λ db. find_first (is_counterparty trade.counterparty_lei) db.counterparties)
    ssi ← gets (λ db. find_first (is_ssi trade.counterparty_lei trade.currency false) db.ssis)
    results ← run_bo_rules (bo_rules rt.schwifty) trade cp ssi
    update_workflow_status rt trade_id (bo_status results)
        (λ row. record row { bo_check_results = some results })
    commit
    pure results

  unfoldable pub run_bo_check : String → Exec (List CheckResult × TradeWorkflowStatus)
  unfolding bo_check_rules
  run_bo_check trade_id = do
    results ← bo_check_rules trade_id
    auto ← is_auto "bo_triage_trigger"
    when (any is_failed results && auto)
        (attempt (start_triage (rt.bo_start trade_id (build_error_context results))))
    pure (results, bo_status results)

  abbrev pub Checked : Type 0
  Checked = Option (List CheckResult × TradeWorkflowStatus)

  unfoldable pub maybe_run_bo_check : String → Exec Checked
  unfolding run_bo_check
  maybe_run_bo_check trade_id = do
    auto ← is_auto "bo_check_trigger"
    if auto then (do checked ← run_bo_check trade_id; pure (some checked)) else (do
      update_workflow_status rt trade_id TradeWorkflowStatus.bo_check (λ row. row)
      commit
      pure none)

  abbrev pub is_fo_validated : TradeWorkflowStatus → Bool
  is_fo_validated TradeWorkflowStatus.fo_validated = true
  is_fo_validated _ = false

  unfoldable pub maybe_run_fo_check : String → Exec Checked
  unfolding run_fo_check maybe_run_bo_check
  maybe_run_fo_check trade_id = do
    auto ← is_auto "fo_check_trigger"
    if auto
        then (do
          checked ← run_fo_check trade_id
          when (is_fo_validated checked.1) (maybe_run_bo_check trade_id >> pure tt)
          pure (some checked))
        else (do
          update_workflow_status rt trade_id TradeWorkflowStatus.fo_check (λ row. row)
          commit
          pure none)
