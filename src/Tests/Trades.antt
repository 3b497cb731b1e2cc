-- ===== src/Tests/Trades.antt =====
-- The trade API on the sample database.
use deep_agent_test.Prelude.{◌≡◌, refl, true, some, ◌∷◌}
use deep_agent_test.Result.{ok, err, http}
use deep_agent_test.Domain.Entities.{TradeWorkflowStatus}
use deep_agent_test.Infrastructure.Db.{Db, with_session, ◌>>=◌}
use deep_agent_test.Infrastructure.TradeRepository.{update_workflow_status}
use deep_agent_test.Presentation.Trades.{operator_approve_trade}
use deep_agent_test.Presentation.Trades.Approval.{Approval, operator_approve_lem}
use deep_agent_test.Tests.{sample, surroundings, trade_row}

abbrev waiting : Db
waiting = record sample {
  trades = trade_row "T4" 1 true TradeWorkflowStatus.bo_user_to_validate ∷ sample.trades;
}

-- The trade moves, and one that is done does not.
approved : with_session (operator_approve_trade surroundings "T4") waiting ≡ (
  ok (
    record (trade_row "T4" 1 true TradeWorkflowStatus.bo_validated) { updated_at = 5 },
    some "Acme",
  ),
  record sample {
    trades =
        record (trade_row "T4" 1 true TradeWorkflowStatus.bo_validated) { updated_at = 5 }
        ∷ sample.trades;
  },
)
unfolding operator_approve_trade update_workflow_status ◌>>=◌
approved = refl

refused :
    with_session (operator_approve_trade surroundings "T3") waiting ≡ (err (http 409), waiting)
unfolding operator_approve_trade update_workflow_status ◌>>=◌
refused = refl

operator_approve_lem_example :
    Approval surroundings "T4" waiting
      (with_session (operator_approve_trade surroundings "T4") waiting)
operator_approve_lem_example = operator_approve_lem surroundings "T4" waiting
