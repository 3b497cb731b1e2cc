-- ===== src/Presentation/Trades/Listing.antt =====
-- `list_trades` of src/presentation/routers/trades.py.
pub mod Laws
use deep_agent_test.Prelude.{ℕ, String, not, Option, List, map, find_first}
use deep_agent_test.Result.{http}
use deep_agent_test.Domain.Entities.{TradeModel, CounterpartyModel}
use deep_agent_test.Infrastructure.Db.{Exec, raise_if, pure, gets, ◌>>=◌, ◌>>◌}
use deep_agent_test.Infrastructure.RuleEngine.{is_counterparty}
use deep_agent_test.Infrastructure.TradeRepository.Listing.{TradeFilters, list_rows}
use deep_agent_test.Presentation.Exceptions.{is_page_size}
use deep_agent_test.Presentation.Trades.{name_of}

-- The name of the counterparty, from the map that the handler builds for the rows of the page.
abbrev pub with_name : List CounterpartyModel → TradeModel → TradeModel × Option String
with_name counterparties row =
    (row, name_of (find_first (is_counterparty row.counterparty_lei) counterparties))

unfoldable pub list_trades : TradeFilters → ℕ → ℕ → Exec (List (TradeModel × Option String) × ℕ)
list_trades filters limit offset = do
  raise_if (not (is_page_size limit)) (http 422)
  found ← list_rows filters limit offset
  counterparties ← gets (λ db. db.counterparties)
  pure (map (with_name counterparties) found.0, found.1)
