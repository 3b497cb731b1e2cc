-- ===== src/Presentation/Exceptions.antt =====
-- src/presentation/routers/stp_exceptions.py.
pub mod Opening
use deep_agent_test.Prelude.{
  ℕ, String, Bool, true, false, not, ◌&&◌, ◌||◌, Option, none, some, List, leb, text_eq,
  if◌then◌else◌,
}
use deep_agent_test.Result.{http}
use deep_agent_test.Domain.Entities.{TradeWorkflowStatus}
use deep_agent_test.Domain.Triage.{StpExceptionModel}
use deep_agent_test.Infrastructure.Db.{Exec, or_raise, raise_if, pure, ◌>>=◌, ◌>>◌}
use deep_agent_test.Infrastructure.Runtime.{Runtime}
use deep_agent_test.Infrastructure.TradeRepository.{get_current}
use deep_agent_test.Infrastructure.ExceptionRepository.{
  list_exceptions, get_by_id, create_exception, update_exception_status,
}

-- `Query(20, ge=1, le=100)`; an offset is a natural number.
abbrev pub is_page_size : ℕ → Bool
is_page_size limit = leb 1 limit && leb limit 100

unfoldable pub list_stp_exceptions :
    Option String → Option String → ℕ → ℕ → Exec (List StpExceptionModel × ℕ)
list_stp_exceptions status trade_id limit offset = do
  raise_if (not (is_page_size limit)) (http 422)
  list_exceptions status trade_id limit offset

unfoldable pub get_stp_exception : ℕ → Exec StpExceptionModel
get_stp_exception id = do row ← get_by_id id; or_raise row (http 404)

-- `StpExceptionCreateRequest`, with `min_length=1` on both texts.
pub record StpExceptionCreateRequest : Type 0 where
  pub trade_id : String
  pub error_message : String

abbrev pub is_accepted : StpExceptionCreateRequest → Bool
is_accepted body = not (text_eq body.trade_id "") && not (text_eq body.error_message "")

abbrev pub is_initial : TradeWorkflowStatus → Bool
is_initial TradeWorkflowStatus.initial = true
is_initial _ = false

module _ (rt : Runtime) where
  unfoldable pub create_stp_exception : StpExceptionCreateRequest → Exec StpExceptionModel
  create_stp_exception body = do
    raise_if (not (is_accepted body)) (http 422)
    found ← get_current body.trade_id
    trade ← or_raise found (http 404)
    raise_if (not (is_initial trade.workflow_status)) (http 422)
    create_exception rt body.trade_id body.error_message

  unfoldable pub update_stp_exception_status : ℕ → String → Exec StpExceptionModel
  update_stp_exception_status id status = do
    row ← update_exception_status rt id status
    or_raise row (http 404)
