-- ===== src/Infrastructure/Tools/History.antt =====
-- get_triage_history and get_counterparty_exception_history of src/infrastructure/tools.py. A time
-- is a number of microseconds.
pub mod Failures
use deep_agent_test.Prelude.{
  ℕ, ◌-◌, String, Bool, true, false, ◌&&◌, Option, none, some, List, [], ◌∷◌, ◌++◌, map, select,
  delete_where, leb, length, text_eq, ◌==◌, if◌then◌else◌,
}
use deep_agent_test.Domain.Entities.{TradeModel, RootCause}
use deep_agent_test.Domain.Json.{Json, Members, bool, null, str, arr}
use deep_agent_test.Domain.Triage.{TriageRunModel, StpExceptionModel}
use deep_agent_test.Infrastructure.Db.{Exec, pure, gets, ◌>>=◌}
use deep_agent_test.Infrastructure.ExceptionRepository.{newer}
use deep_agent_test.Infrastructure.Query.{order_by, limit}
use deep_agent_test.Infrastructure.Runtime.{Runtime}
use deep_agent_test.Infrastructure.Tools.Reading.{
  Format, text, number, object, items, is_completed_run, newer_run,
}

abbrev codes_or_null : Option (List ℕ) → Json
codes_or_null none = null
codes_or_null (some s) = str s

unfoldable pub no_history : String → Members
unfolding object items
no_history trade_id = object (
    ("found", bool false)
    ∷ ("trade_id", text trade_id)
    ∷ ("history", arr (items []))
    ∷ ("message", text "No completed triage history found for this trade.")
    ∷ [])

-- The exceptions joined with the versions of their trades that are with this counterparty: a row
-- for each version.
abbrev pub of_counterparty : String → StpExceptionModel → TradeModel → Bool
of_counterparty lei row trade =
    text_eq trade.trade_id row.trade_id && text_eq trade.counterparty_lei lei

abbrev pub copies : {A : Type 0} → StpExceptionModel → List A → List StpExceptionModel
copies row [] = []
copies row (x ∷ xs) = row ∷ copies row xs

unfoldable pub joined : String → List TradeModel → List StpExceptionModel → List StpExceptionModel
joined lei trades [] = []
joined lei trades (row ∷ rows) =
    copies row (select (of_counterparty lei row) trades) ++ joined lei trades rows

-- A query for one entity returns each row of its table once.
unfoldable pub unique : List StpExceptionModel → List StpExceptionModel
unique [] = []
unique (row ∷ rows) = row ∷ delete_where (λ r. r.id == row.id) (unique rows)

abbrev pub is_recent : ℕ → StpExceptionModel → Bool
is_recent cutoff row = leb cutoff row.created_at

-- `timedelta(days=30)`
abbrev pub thirty_days : ℕ
thirty_days = 2592000000000

unfoldable pub recent_failures :
    ℕ → String → List TradeModel → List StpExceptionModel → List StpExceptionModel
unfolding joined unique
recent_failures cutoff lei trades rows =
    unique (limit 10 (order_by newer (select (is_recent cutoff) (joined lei trades rows))))

module _ (f : Format) where
  abbrev root_cause_or_null : Option RootCause → Json
  root_cause_or_null none = null
  root_cause_or_null (some cause) = text (f.root_cause cause)

  unfoldable pub history_item : TriageRunModel → Members
  unfolding object
  history_item run = object (
      ("root_cause", root_cause_or_null run.root_cause)
      ∷ ("diagnosis", codes_or_null run.diagnosis)
      ∷ ("recommended_action", codes_or_null run.recommended_action)
      ∷ ("created_at", text (f.timestamp run.created_at))
      ∷ [])

  unfoldable pub history_of : String → List TriageRunModel → Members
  unfolding object items no_history history_item
  history_of trade_id [] = no_history trade_id
  history_of trade_id (run ∷ runs) = object (
      ("found", bool true)
      ∷ ("trade_id", text trade_id)
      ∷ ("count", number f (length (run ∷ runs)))
      ∷ ("history", arr (items (map history_item (run ∷ runs))))
      ∷ [])

  unfoldable pub get_triage_history : String → Exec Members
  unfolding history_of
  get_triage_history trade_id = do
    runs ← gets (λ db. limit 5 (order_by newer_run (select (is_completed_run trade_id) db.runs)))
    pure (history_of trade_id runs)

  unfoldable pub exception_item : StpExceptionModel → Members
  unfolding object
  exception_item row = object (
      ("trade_id", text row.trade_id)
      ∷ ("error_message", text row.error_message)
      ∷ ("status", text row.status)
      ∷ ("created_at", text (f.timestamp row.created_at))
      ∷ [])

  unfoldable pub failures_of : String → List StpExceptionModel → Members
  unfolding object items exception_item
  failures_of lei rows = object (
      ("lei", text lei)
      ∷ ("failure_count", number f (length rows))
      ∷ ("period_days", number f 30)
      ∷ ("exceptions", arr (items (map exception_item rows)))
      ∷ (
        "warning",
        text (
            if leb 3 (length rows)
            then "WARNING: 3 or more failures in 30 days — possible systemic issue."
            else ""),
      )
      ∷ [])

  unfoldable pub get_counterparty_exception_history : Runtime → String → Exec Members
  unfolding recent_failures failures_of
  get_counterparty_exception_history rt lei = do
    rows ← gets (λ db. recent_failures (rt.now - thirty_days) lei db.trades db.exceptions)
    pure (failures_of lei rows)
