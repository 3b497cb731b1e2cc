-- ===== src/Presentation/Trades/Creation.antt =====
-- `create_trade` of src/presentation/routers/trades.py and its request.
pub mod Insertion
pub mod Validity
use deep_agent_test.Prelude.{
  ℕ, zero, suc, String, Bool, true, not, ◌&&◌, Option, none, some, [], ◌∷◌, ◌++◌, any, length, leb,
  if◌then◌else◌,
}
use deep_agent_test.Result.{http, database_error}
use deep_agent_test.Infrastructure.Columns.{fits_trade, rounded}
use deep_agent_test.Domain.Dates.{Date}
use deep_agent_test.Domain.Numbers.{Decimal, le_zero}
use deep_agent_test.Domain.Text.{codes}
use deep_agent_test.Domain.Classification.{TradeType, calculate_trade_type}
use deep_agent_test.Domain.Entities.{TradeModel, TradeWorkflowStatus}
use deep_agent_test.Infrastructure.Db.{
  Db, Exec, or_raise, raise_if, lift, pure, gets, modify, commit, rollback, interleave, attempt,
  ◌>>=◌, ◌>>◌,
}
use deep_agent_test.Infrastructure.Runtime.{Runtime}
use deep_agent_test.Infrastructure.TradeRepository.{get_current, has_version}
use deep_agent_test.Infrastructure.TradeRepository.Allocation.{allocate_next_trade_id}
use deep_agent_test.Infrastructure.RuleEngine.{maybe_run_fo_check}
use deep_agent_test.Presentation.Trades.{to_out}

pub record TradeCreateRequest : Type 0 where
  pub trade_date : Date
  pub value_date : Date
  pub counterparty_lei : String
  pub instrument_id : String
  pub currency : String
  pub amount : Decimal
  pub fx_rate : Decimal

-- The lengths and the signs that the schema demands.
unfoldable pub is_accepted : TradeCreateRequest → Bool
is_accepted body =
    leb 1 (length (codes body.counterparty_lei))
    && (leb 1 (length (codes body.instrument_id))
        && (leb 3 (length (codes body.currency))
            && (leb (length (codes body.currency)) 10
                && (not (le_zero body.amount) && not (le_zero body.fx_rate)))))

-- The insertion and the commit. They raise DataError on a value that its column does not take, which
-- is not caught, and fail on a pair (trade_id, version) that is taken, and what the handler does
-- then.
unfoldable pub add_new : TradeModel → Exec Bool
add_new row = do
  taken ← gets (λ db. any (has_version row.trade_id row.version) db.trades)
  if taken
      then (do rollback; pure Bool.false)
      else (do modify (λ db. record db { trades = db.trades ++ row ∷ [] }); commit; pure true)

unfoldable pub try_insert : TradeModel → Exec Bool
unfolding add_new
try_insert row = do raise_if (not (fits_trade row)) database_error; add_new row

module _ (rt : Runtime) where
  -- The row as its columns keep it.
  abbrev pub new_trade : TradeCreateRequest → String → TradeType → TradeModel
  new_trade body trade_id trade_type = record {
    trade_id = trade_id;
    version = 1;
    workflow_status = TradeWorkflowStatus.initial;
    is_current = true;
    counterparty_lei = body.counterparty_lei;
    instrument_id = body.instrument_id;
    currency = body.currency;
    amount = rounded 5 body.amount;
    fx_rate = rounded 8 body.fx_rate;
    trade_type = trade_type;
    value_date = body.value_date;
    trade_date = body.trade_date;
    input_date = rt.today;
    settlement_currency = body.currency;
    sendback_count = 0;
    fo_check_results = none;
    bo_check_results = none;
    bo_sendback_reason = none;
    fo_explanation = none;
    created_at = rt.now;
    updated_at = rt.now;
  }

  -- One round of the loop. `others` is what other sessions commit between the choice of the
  -- identifier and the commit, `rest` the rounds that are left.
  unfoldable pub insert_round :
      (Db → Db) → TradeCreateRequest → Exec (Option String) → Exec (Option String)
  unfolding allocate_next_trade_id try_insert
  insert_round others body rest = do
    trade_id ← allocate_next_trade_id
    trade_type ← lift (calculate_trade_type body.trade_date body.value_date)
    interleave others
    added ← try_insert (new_trade body trade_id trade_type)
    if added then pure (some trade_id) else rest

  unfoldable pub insert_new : (ℕ → Db → Db) → ℕ → TradeCreateRequest → Exec (Option String)
  unfolding insert_round
  insert_new others zero body = pure none
  insert_new others (suc k) body = insert_round (others k) body (insert_new others k body)

  unfoldable pub create_trade :
      (ℕ → Db → Db) → TradeCreateRequest → Exec (TradeModel × Option String)
  unfolding insert_new is_accepted
  create_trade others body = do
    raise_if (not (is_accepted body)) (http 422)
    assigned ← insert_new others 32 body
    trade_id ← or_raise assigned (http 503)
    attempt (maybe_run_fo_check rt trade_id)
    found ← get_current trade_id
    row ← or_raise found (http 500)
    to_out row
