-- ===== src/Infrastructure/ExceptionRepository.antt =====
-- src/infrastructure/db/stp_exception_repository.py.
use deep_agent_test.Prelude.{
  ℕ, ◌+◌, String, Bool, true, not, ◌&&◌, Option, none, some, List, [], ◌∷◌, ◌++◌, find_first,
  update_first, text_eq, ltb, ◌==◌, if◌then◌else◌,
}
use deep_agent_test.Domain.Triage.{StpExceptionModel}
use deep_agent_test.Result.{database_error}
use deep_agent_test.Infrastructure.Columns.{fits}
use deep_agent_test.Infrastructure.Db.{Exec, raise_if, pure, gets, modify, commit, ◌>>=◌, ◌>>◌}
use deep_agent_test.Infrastructure.Query.{has_part, page}
use deep_agent_test.Infrastructure.Runtime.{Runtime}

-- A filter is not set where it is absent or empty.
abbrev pub unless_empty : Option String → (String → Bool) → Bool
unless_empty none p = true
unless_empty (some text) p = if text_eq text "" then true else p text

abbrev pub listed : Option String → Option String → StpExceptionModel → Bool
listed status trade_id row =
    unless_empty status (λ text. text_eq row.status text)
    && unless_empty trade_id (λ text. has_part text row.trade_id)

abbrev pub newer : StpExceptionModel → StpExceptionModel → Bool
newer a b = ltb b.created_at a.created_at

-- `list`
unfoldable pub list_exceptions :
    Option String → Option String → ℕ → ℕ → Exec (List StpExceptionModel × ℕ)
list_exceptions status trade_id limit offset =
    gets (λ db. page (listed status trade_id) newer limit offset db.exceptions)

abbrev pub has_id : ℕ → StpExceptionModel → Bool
has_id id row = row.id == id

abbrev pub get_by_id : ℕ → Exec (Option StpExceptionModel)
get_by_id id = gets (λ db. find_first (has_id id) db.exceptions)

-- An assignment to the row that was found, and its commit.
abbrev pub change_found :
    ℕ
    → (StpExceptionModel → StpExceptionModel)
    → Option StpExceptionModel
    → Exec (Option StpExceptionModel)
change_found id change none = pure none
change_found id change (some row) = do
  modify (λ db. record db { exceptions = update_first (has_id id) change db.exceptions })
  commit
  pure (some (change row))

module _ (rt : Runtime) where
  abbrev pub new_exception : ℕ → String → String → StpExceptionModel
  new_exception id trade_id error_message = record {
    id = id;
    trade_id = trade_id;
    error_message = error_message;
    status = "OPEN";
    triage_run_id = none;
    created_at = rt.now;
    updated_at = rt.now;
  }

  -- `create`
  unfoldable pub create_exception : String → String → Exec StpExceptionModel
  create_exception trade_id error_message = do
    raise_if (not (fits 50 trade_id)) database_error
    id ← gets (λ db. db.next_id)
    let row = new_exception id trade_id error_message
    modify (λ db. record db { exceptions = db.exceptions ++ row ∷ []; next_id = db.next_id + 1 })
    commit
    pure row

  abbrev pub with_status : String → StpExceptionModel → StpExceptionModel
  with_status status row = record row { status = status; updated_at = rt.now }

  -- An assignment of a text that the column does not take raises at the commit.
  abbrev pub set_status_found :
      ℕ → String → Option StpExceptionModel → Exec (Option StpExceptionModel)
  set_status_found id status none = pure none
  set_status_found id status (some row) = do
    raise_if (not (fits 20 status)) database_error
    change_found id (with_status status) (some row)

  -- `update_status`
  unfoldable pub update_exception_status : ℕ → String → Exec (Option StpExceptionModel)
  update_exception_status id status = do row ← get_by_id id; set_status_found id status row

  abbrev pub with_triage_run : ℕ → StpExceptionModel → StpExceptionModel
  with_triage_run triage_run_id row = record row {
    triage_run_id = some triage_run_id;
    updated_at = rt.now;
  }

  unfoldable pub link_triage_run : ℕ → ℕ → Exec (Unit {0})
  link_triage_run id triage_run_id = do
    row ← get_by_id id
    change_found id (with_triage_run triage_run_id) row
    pure tt
