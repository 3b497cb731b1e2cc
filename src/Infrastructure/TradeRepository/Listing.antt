-- ===== src/Infrastructure/TradeRepository/Listing.antt =====
-- `list` and `list_versions` of src/infrastructure/db/trade_repository.py, and `list_for_trade` of
-- trade_event_repository.py.
use deep_agent_test.Prelude.{
  ℕ, String, Bool, true, ◌&&◌, Option, none, some, List, select, text_eq, ltb, ◌==◌,
}
use deep_agent_test.Domain.Dates.{Date}
use deep_agent_test.Domain.Entities.{TradeModel, TradeWorkflowStatus, TradeEventModel}
use deep_agent_test.Infrastructure.Db.{Exec, gets}
use deep_agent_test.Infrastructure.ExceptionRepository.{unless_empty}
use deep_agent_test.Infrastructure.Query.{has_part, page, order_by}

-- The text in the column `workflow_status`.
unfoldable pub status_text : TradeWorkflowStatus → String
status_text TradeWorkflowStatus.initial = "Initial"
status_text TradeWorkflowStatus.fo_check = "FoCheck"
status_text TradeWorkflowStatus.fo_agent_to_check = "FoAgentToCheck"
status_text TradeWorkflowStatus.fo_user_to_validate = "FoUserToValidate"
status_text TradeWorkflowStatus.fo_validated = "FoValidated"
status_text TradeWorkflowStatus.bo_check = "BoCheck"
status_text TradeWorkflowStatus.bo_agent_to_check = "BoAgentToCheck"
status_text TradeWorkflowStatus.bo_user_to_validate = "BoUserToValidate"
status_text TradeWorkflowStatus.bo_validated = "BoValidated"
status_text TradeWorkflowStatus.done = "Done"
status_text TradeWorkflowStatus.cancelled = "Cancelled"
status_text TradeWorkflowStatus.event_pending = "EventPending"

abbrev pub traded_on : Option Date → TradeModel → Bool
traded_on none row = true
traded_on (some d) row = row.trade_date == d

abbrev pub later_traded : TradeModel → TradeModel → Bool
later_traded a b = ltb b.trade_date a.trade_date

-- The filters of a list of trades.
pub record TradeFilters : Type 0 where
  pub trade_id : Option String
  pub workflow_status : Option String
  pub trade_date : Option Date

unfoldable pub is_listed : TradeFilters → TradeModel → Bool
unfolding status_text
is_listed filters row =
    row.is_current
    && (unless_empty filters.trade_id (λ text. has_part text row.trade_id)
        && (unless_empty filters.workflow_status
              (λ text. text_eq (status_text row.workflow_status) text)
            && traded_on filters.trade_date row))

-- `list`
unfoldable pub list_rows : TradeFilters → ℕ → ℕ → Exec (List TradeModel × ℕ)
unfolding is_listed
list_rows filters limit offset =
    gets (λ db. page (is_listed filters) later_traded limit offset db.trades)

unfoldable pub list_versions : String → Exec (List TradeModel)
list_versions trade_id = gets λ db.
    order_by (λ a b. ltb a.version b.version)
      (select (λ row. text_eq row.trade_id trade_id) db.trades)

unfoldable pub list_for_trade : String → Exec (List TradeEventModel)
list_for_trade trade_id = gets λ db.
    order_by (λ a b. ltb b.created_at a.created_at)
      (select (λ row. text_eq row.trade_id trade_id) db.events)
