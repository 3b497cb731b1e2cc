-- ===== src/Tests/Reading.antt =====
-- The tools that read.
use deep_agent_test.Prelude.{
  ◌≡◌, refl, true, false, length, select, ◌≤◌, some, [], ◌∷◌, count_if, arith,
}
use deep_agent_test.Result.{ok}
use deep_agent_test.Domain.Entities.{TradeModel, TradeWorkflowStatus}
use deep_agent_test.Domain.Json.{Json, Members, member, no_members, str, num, bool}
use deep_agent_test.Domain.Text.{codes}
use deep_agent_test.Domain.Triage.{StpExceptionModel}
use deep_agent_test.Infrastructure.Db.{Db, with_session}
use deep_agent_test.Infrastructure.ExceptionRepository.{has_id, new_exception}
use deep_agent_test.Infrastructure.Tools.{
  send_back_to_fo, provide_explanation, sent_back, explained,
}
use deep_agent_test.Infrastructure.Tools.Reading.{Format}
use deep_agent_test.Infrastructure.Tools.Feedback.{get_bo_sendback_reason, get_fo_explanation}
use deep_agent_test.Infrastructure.Tools.Feedback.Told.{feedback_told}
use deep_agent_test.Infrastructure.Tools.History.{joined, is_recent, recent_failures}
use deep_agent_test.Infrastructure.Tools.History.Failures.{recent_failures_lem}
use deep_agent_test.Tests.{sample, surroundings, trade_row}

abbrev format : Format
format = record {
  number = λ n. n ∷ [];
  decimal = λ d. "1.00";
  isoformat = λ d. "2026-04-29";
  timestamp = λ n. "now";
  trade_type = λ t. "SPOT";
  root_cause = λ c. "UNKNOWN";
  results = λ rs. Json.null;
}

abbrev row : TradeModel
row = trade_row "T3" 1 true TradeWorkflowStatus.done

abbrev returned : TradeModel
returned = record row {
  workflow_status = TradeWorkflowStatus.fo_agent_to_check;
  bo_sendback_reason = some "why";
  sendback_count = 1;
  updated_at = 5;
}

abbrev justified : TradeModel
justified = record row {
  workflow_status = TradeWorkflowStatus.fo_validated;
  fo_explanation = some "why";
  updated_at = 5;
}

abbrev with_row : TradeModel → Db
with_row changed = record sample {
  trades =
      trade_row "T1" 1 true TradeWorkflowStatus.event_pending
      ∷ trade_row "T1" 2 false TradeWorkflowStatus.event_pending
      ∷ trade_row "T2" 1 true TradeWorkflowStatus.event_pending
      ∷ changed
      ∷ [];
}

abbrev told_reason : Members
told_reason = member (codes "trade_id") (str (codes "T3")) (
    member (codes "found") (bool true) (
      member (codes "bo_sendback_reason") (str (codes "why"))
        (member (codes "sendback_count") (num (1 ∷ [])) no_members)))

abbrev told_explanation : Members
told_explanation = member (codes "trade_id") (str (codes "T3")) (
    member (codes "found") (bool true)
      (member (codes "fo_explanation") (str (codes "why")) no_members))

feedback_told_example :
    (with_session (send_back_to_fo surroundings "T3" "why") sample
      ≡ (ok (sent_back "T3" 1 "why"), with_row returned))
    × ((with_session (get_bo_sendback_reason format "T3") (with_row returned)).0 ≡ ok told_reason)
    × (with_session (provide_explanation surroundings "T3" "why") sample
        ≡ (ok (explained "T3" "why"), with_row justified))
    × ((with_session (get_fo_explanation "T3") (with_row justified)).0 ≡ ok told_explanation)
feedback_told_example = feedback_told surroundings format "T3" "why" sample row refl refl

-- T1 has two versions with its counterparty, and one exception.
abbrev failure : StpExceptionModel
failure = new_exception surroundings 7 "T1" "late"

few_failures : length (select (is_recent 1) (joined "LEI1" sample.trades (failure ∷ []))) ≤ 10
unfolding joined
few_failures = omega arith

recent_failures_lem_example :
    count_if (has_id 7) (recent_failures 1 "LEI1" sample.trades (failure ∷ [])) ≡ 1
recent_failures_lem_example =
    recent_failures_lem 1 "LEI1" sample.trades (failure ∷ []) 7 few_failures
