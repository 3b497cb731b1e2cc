-- ===== src/Infrastructure/Seed.antt =====
-- src/infrastructure/seed.py: the demonstration data and the functions that add what is missing of
-- it. A function that only adds rows is an action of the session.
pub mod FoResults
pub mod BoResults
pub mod Masters
pub mod Trades
pub mod Validity
pub mod Seeding
use deep_agent_test.Prelude.{
  ℕ, ◌+◌, String, Bool, true, false, not, Option, none, some, List, [], ◌∷◌, ◌++◌, map, any, select,
  text_eq, if◌then◌else◌,
}
use deep_agent_test.Domain.Classification.{TradeType, calculate_trade_type}
use deep_agent_test.Domain.Dates.{Date}
use deep_agent_test.Domain.Entities.{TradeModel, CounterpartyModel, SettlementInstructionModel}
use deep_agent_test.Domain.Triage.{StpExceptionModel, ReferenceDataModel}
use deep_agent_test.Infrastructure.Db.{
  Exec, lift, pure, gets, modify, commit, attempt, when, ◌>>=◌, ◌>>◌,
}
use deep_agent_test.Infrastructure.EventRepository.{setting, is_auto}
use deep_agent_test.Infrastructure.ExceptionRepository.{new_exception}
use deep_agent_test.Infrastructure.RuleEngine.{is_counterparty, is_ssi, run_fo_check}
use deep_agent_test.Infrastructure.Runtime.{Runtime}
use deep_agent_test.Infrastructure.Seed.Masters.{
  counterparties, reference_data, ssis, app_settings, fx_rates, rate_in,
}
use deep_agent_test.Infrastructure.Seed.Trades.{SeedTrade, seed_trades}
use deep_agent_test.Infrastructure.TradeRepository.Listing.{TradeFilters, list_rows}

-- `_TRADE_DATE`: 2026-04-01
abbrev pub seed_date : Date
seed_date = 739707

abbrev pub has_trade : String → TradeModel → Bool
has_trade trade_id row = text_eq row.trade_id trade_id

abbrev pub is_exception_of : String → StpExceptionModel → Bool
is_exception_of trade_id row = text_eq row.trade_id trade_id

abbrev is_instrument : String → ReferenceDataModel → Bool
is_instrument instrument_id row = text_eq row.instrument_id instrument_id

abbrev is_key : String → String × String → Bool
is_key key row = text_eq row.0 key

unfoldable pub upsert_reference_data : Exec (Unit {0})
unfolding reference_data
upsert_reference_data = do
  existing ← gets (λ db. db.reference_data)
  let missing = select (λ row. not (any (is_instrument row.instrument_id) existing)) reference_data
  modify (λ db. record db { reference_data = db.reference_data ++ missing })

unfoldable pub upsert_app_settings : Exec (Unit {0})
unfolding app_settings
upsert_app_settings = do
  existing ← gets (λ db. db.settings)
  let missing = select (λ row. not (any (is_key row.0) existing)) app_settings
  modify (λ db. record db { settings = db.settings ++ missing })

module _ (rt : Runtime) where
  abbrev stamped : CounterpartyModel → CounterpartyModel
  stamped row = record row { updated_at = rt.now }

  unfoldable pub upsert_counterparties : Exec (Unit {0})
  unfolding counterparties
  upsert_counterparties = do
    existing ← gets (λ db. db.counterparties)
    let missing = select (λ row. not (any (is_counterparty row.lei) existing)) counterparties
    modify (λ db. record db { counterparties = db.counterparties ++ map stamped missing })

  abbrev pub add_ssi : SettlementInstructionModel → Exec (Unit {0})
  add_ssi row = modify λ db. record db {
    ssis = db.ssis ++ record row { id = db.next_id; created_at = rt.now; updated_at = rt.now } ∷ [];
    next_id = db.next_id + 1;
  }

  unfoldable pub add_ssis :
      List SettlementInstructionModel → List SettlementInstructionModel → Exec (Unit {0})
  add_ssis existing [] = pure tt
  add_ssis existing (row ∷ rows) = do
    when (not (any (is_ssi row.lei row.currency row.is_external) existing)) (add_ssi row)
    add_ssis existing rows

  unfoldable pub upsert_ssis : Exec (Unit {0})
  unfolding add_ssis ssis
  upsert_ssis = do existing ← gets (λ db. db.ssis); add_ssis existing ssis

  abbrev pub seeded_trade : SeedTrade → TradeType → TradeModel
  seeded_trade seed trade_type = record {
    trade_id = seed.trade_id;
    version = 1;
    workflow_status = seed.workflow_status;
    is_current = true;
    counterparty_lei = seed.counterparty_lei;
    instrument_id = seed.instrument_id;
    currency = seed.currency;
    amount = seed.amount;
    fx_rate = rate_in seed.instrument_id fx_rates;
    trade_type = trade_type;
    value_date = seed.value_date;
    trade_date = seed_date;
    input_date = seed_date;
    settlement_currency = seed.settlement_currency;
    sendback_count = 0;
    fo_check_results = seed.fo_check_results;
    bo_check_results = seed.bo_check_results;
    bo_sendback_reason = none;
    fo_explanation = none;
    created_at = rt.now;
    updated_at = rt.now;
  }

  abbrev pub add_trade : SeedTrade → Exec (Unit {0})
  add_trade seed = do
    trade_type ← lift (calculate_trade_type seed_date seed.value_date)
    modify (λ db. record db { trades = db.trades ++ seeded_trade seed trade_type ∷ [] })

  abbrev pub add_exception : String → Option String → Exec (Unit {0})
  add_exception trade_id none = pure tt
  add_exception trade_id (some error_message) = modify λ db. record db {
    exceptions = db.exceptions ++ new_exception rt db.next_id trade_id error_message ∷ [];
    next_id = db.next_id + 1;
  }

  -- One round of the loops of `_upsert_trades_and_exceptions`.
  unfoldable pub add_missing :
      List TradeModel → List StpExceptionModel → SeedTrade → Exec (Unit {0})
  add_missing existing_trades existing_exc_trades seed = do
    when (not (any (has_trade seed.trade_id) existing_trades)) (add_trade seed)
    when (not (any (is_exception_of seed.trade_id) existing_exc_trades))
        (add_exception seed.trade_id seed.error_message)

  unfoldable pub add_all :
      List TradeModel → List StpExceptionModel → List SeedTrade → Exec (Unit {0})
  add_all existing_trades existing_exc_trades [] = pure tt
  add_all existing_trades existing_exc_trades (seed ∷ seeds) = do
    add_missing existing_trades existing_exc_trades seed
    add_all existing_trades existing_exc_trades seeds

  unfoldable pub upsert_trades_and_exceptions : Exec (Unit {0})
  unfolding add_all add_missing seed_trades
  upsert_trades_and_exceptions = do
    existing_trades ← gets (λ db. db.trades)
    existing_exc_trades ← gets (λ db. db.exceptions)
    add_all existing_trades existing_exc_trades seed_trades

  abbrev pub initial_trades : TradeFilters
  initial_trades = record { trade_id = none; workflow_status = some "Initial"; trade_date = none }

  unfoldable pub check_all : List TradeModel → Exec (Unit {0})
  check_all [] = pure tt
  check_all (trade ∷ trades) = do attempt (run_fo_check rt trade.trade_id); check_all trades

  unfoldable pub maybe_auto_run_fo_check : Exec (Unit {0})
  unfolding check_all
  maybe_auto_run_fo_check = do
    auto ← is_auto "fo_check_trigger"
    items ← list_rows initial_trades 100 0
    when auto (check_all items.0)

  unfoldable pub seed_database : Exec (Unit {0})
  unfolding upsert_counterparties upsert_ssis upsert_trades_and_exceptions maybe_auto_run_fo_check
  seed_database = do
    upsert_counterparties
    upsert_reference_data
    upsert_ssis
    upsert_trades_and_exceptions
    upsert_app_settings
    commit
    maybe_auto_run_fo_check

  -- The TRUNCATE, which leaves the events and the runs.
  unfoldable pub reset_and_seed : Exec (Unit {0})
  unfolding seed_database
  reset_and_seed = do
    modify λ db. record db {
      exceptions = [];
      ssis = [];
      reference_data = [];
      counterparties = [];
      trades = [];
      settings = [];
    }
    commit
    seed_database
