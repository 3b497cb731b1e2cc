-- ===== src/Infrastructure/EventRepository.antt =====
-- src/infrastructure/db/trade_event_repository.py and app_setting_repository.py.
use deep_agent_test.Prelude.{
  ℕ, ◌+◌, String, Bool, true, false, not, ◌&&◌, Option, none, some, List, [], ◌∷◌, ◌++◌, find_first,
  update_first, text_eq, ◌==◌, if◌then◌else◌,
}
use deep_agent_test.Result.{database_error}
use deep_agent_test.Domain.Entities.{EventType, EventWorkflowStatus, TradeEventModel}
use deep_agent_test.Infrastructure.Columns.{fits}
use deep_agent_test.Infrastructure.Db.{Exec, raise_if, pure, gets, modify, ◌>>=◌, ◌>>◌}
use deep_agent_test.Infrastructure.Runtime.{Runtime}
use deep_agent_test.Infrastructure.TradeRepository.{Fields}

-- `_TERMINAL_STATUSES`
abbrev pub is_terminal : EventWorkflowStatus → Bool
is_terminal EventWorkflowStatus.done = true
is_terminal EventWorkflowStatus.cancelled = true
is_terminal _ = false

abbrev pub pending_of : String → TradeEventModel → Bool
pending_of trade_id row = text_eq row.trade_id trade_id && not (is_terminal row.workflow_status)

abbrev pub has_id : ℕ → TradeEventModel → Bool
has_id id row = row.id == id

abbrev pub get_pending : String → Exec (Option TradeEventModel)
get_pending trade_id = gets (λ db. find_first (pending_of trade_id) db.events)

abbrev pub get_event : ℕ → Exec (Option TradeEventModel)
get_event id = gets (λ db. find_first (has_id id) db.events)

module _ (rt : Runtime) where
  unfoldable pub add_event :
      String → ℕ → ℕ → EventType → String → Option String → Option Fields → Exec TradeEventModel
  add_event trade_id from_version to_version event_type requested_by reason amended_fields = do
    id ← gets (λ db. db.next_id)
    let row : TradeEventModel = record {
      id = id;
      trade_id = trade_id;
      from_version = from_version;
      to_version = to_version;
      event_type = event_type;
      workflow_status = EventWorkflowStatus.fo_user_to_validate;
      requested_by = requested_by;
      reason = reason;
      amended_fields = amended_fields;
      created_at = rt.now;
      updated_at = rt.now;
    }
    modify (λ db. record db { events = db.events ++ row ∷ []; next_id = db.next_id + 1 })
    pure row

  -- The columns' bounds, then the row.
  unfoldable pub create :
      String → ℕ → ℕ → EventType → String → Option String → Option Fields → Exec TradeEventModel
  unfolding add_event
  create trade_id from_version to_version event_type requested_by reason amended_fields = do
    raise_if (not (fits 50 trade_id && fits 100 requested_by)) database_error
    add_event trade_id from_version to_version event_type requested_by reason amended_fields

  abbrev pub event_with_status : EventWorkflowStatus → TradeEventModel → TradeEventModel
  event_with_status status row = record row { workflow_status = status; updated_at = rt.now }

  -- An update of the row of that identifier, if there is one.
  unfoldable pub update_status : ℕ → EventWorkflowStatus → Exec (Unit {0})
  update_status id status =
      modify
        λ db. record db { events = update_first (has_id id) (event_with_status status) db.events }

-- `AppSettingRepository.get(key)`, with `setting and setting.value == "auto"`.
abbrev pub setting : String → List (String × String) → Option String
setting key [] = none
setting key ((k, v) ∷ rest) = let more = setting key rest in if text_eq k key then some v else more

abbrev is_auto_value : Option String → Bool
is_auto_value none = false
is_auto_value (some v) = text_eq v "auto"

unfoldable pub is_auto : String → Exec Bool
is_auto key = gets (λ db. is_auto_value (setting key db.settings))

-- `AppSettingRepository.set(key, value)`: a new row, or the value of the old one.
unfoldable pub set_setting : String → String → List (String × String) → List (String × String)
set_setting key value [] = (key, value) ∷ []
set_setting key value ((k, v) ∷ rest) =
    let more = set_setting key value rest in
    if text_eq k key then (k, value) ∷ rest else (k, v) ∷ more
