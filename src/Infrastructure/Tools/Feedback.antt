-- ===== src/Infrastructure/Tools/Feedback.antt =====
-- The tools of src/infrastructure/tools.py by which each agent reads what the checks and the other
-- agent have left on the trade.
pub mod Told
use Prim.Native.String.{◌++◌ as ◌<>◌}
use deep_agent_test.Prelude.{
  String, true, false, Option, none, some, List, [], ◌∷◌, text_eq, if◌then◌else◌,
}
use deep_agent_test.Domain.Entities.{TradeModel, CheckResult}
use deep_agent_test.Domain.Json.{Json, Members, bool}
use deep_agent_test.Infrastructure.Db.{Exec, pure, ◌>>=◌}
use deep_agent_test.Infrastructure.TradeRepository.{get_current}
use deep_agent_test.Infrastructure.TradeRepository.Listing.{status_text}
use deep_agent_test.Infrastructure.Tools.Reading.{
  Format, text, number, object, error_answer, answer_for,
}

abbrev pub unknown_trade : String → Members
unknown_trade trade_id = error_answer ("Trade '" <> (trade_id <> "' not found."))

unfoldable pub nothing_found : String → String → Members
unfolding object
nothing_found trade_id message =
    object (("trade_id", text trade_id) ∷ ("found", bool false) ∷ ("message", text message) ∷ [])

-- A text column that is empty counts as none.
abbrev pub given : Option String → Option String
given none = none
given (some s) = if text_eq s "" then none else some s

unfoldable pub explanation_found : String → String → Members
unfolding object
explanation_found trade_id explanation =
    object (
      ("trade_id", text trade_id)
      ∷ ("found", bool true)
      ∷ ("fo_explanation", text explanation)
      ∷ [])

unfoldable pub explanation_of : String → TradeModel → Members
unfolding nothing_found explanation_found
explanation_of trade_id trade =
    answer_for (nothing_found trade_id "No FoAgent explanation recorded for this trade.")
      (explanation_found trade_id) (given trade.fo_explanation)

unfoldable pub get_fo_explanation : String → Exec Members
unfolding error_answer explanation_of
get_fo_explanation trade_id = do
  trade ← get_current trade_id
  pure (answer_for (unknown_trade trade_id) (explanation_of trade_id) trade)

module _ (f : Format) where
  unfoldable pub check_results : String → String → TradeModel → Option (List CheckResult) → Members
  unfolding object status_text
  check_results trade_id message trade none = object (
      ("trade_id", text trade_id)
      ∷ ("found", bool false)
      ∷ ("workflow_status", text (status_text trade.workflow_status))
      ∷ ("sendback_count", number f trade.sendback_count)
      ∷ ("message", text message)
      ∷ [])
  check_results trade_id message trade (some results) = object (
      ("trade_id", text trade_id)
      ∷ ("found", bool true)
      ∷ ("workflow_status", text (status_text trade.workflow_status))
      ∷ ("sendback_count", number f trade.sendback_count)
      ∷ ("results", f.results results)
      ∷ [])

  unfoldable pub get_bo_check_results : String → Exec Members
  unfolding error_answer check_results
  get_bo_check_results trade_id = do
    trade ← get_current trade_id
    pure (answer_for (unknown_trade trade_id) found trade)
    where
      found : TradeModel → Members
      found trade =
          check_results trade_id "No BoCheck results available. BoCheck has not been run yet." trade
            trade.bo_check_results

  unfoldable pub get_fo_check_results : String → Exec Members
  unfolding error_answer check_results
  get_fo_check_results trade_id = do
    trade ← get_current trade_id
    pure (answer_for (unknown_trade trade_id) found trade)
    where
      found : TradeModel → Members
      found trade =
          check_results trade_id "No FoCheck results available. FoCheck has not been run yet." trade
            trade.fo_check_results

  unfoldable pub reason_found : String → TradeModel → String → Members
  unfolding object
  reason_found trade_id trade reason = object (
      ("trade_id", text trade_id)
      ∷ ("found", bool true)
      ∷ ("bo_sendback_reason", text reason)
      ∷ ("sendback_count", number f trade.sendback_count)
      ∷ [])

  unfoldable pub sendback_reason_of : String → TradeModel → Members
  unfolding nothing_found reason_found
  sendback_reason_of trade_id trade =
      answer_for
        (nothing_found trade_id
          "No BO sendback reason recorded. This trade was not sent back by BO.")
        (reason_found trade_id trade) (given trade.bo_sendback_reason)

  unfoldable pub get_bo_sendback_reason : String → Exec Members
  unfolding error_answer sendback_reason_of
  get_bo_sendback_reason trade_id = do
    trade ← get_current trade_id
    pure (answer_for (unknown_trade trade_id) (sendback_reason_of trade_id) trade)
