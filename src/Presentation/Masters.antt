-- ===== src/Presentation/Masters.antt =====
-- src/presentation/routers/counterparties.py, ssis.py and reference_data.py.
pub mod Editing
use deep_agent_test.Prelude.{
  ℕ, String, Bool, not, ◌&&◌, ◌==◌, Option, none, some, List, find_first, update_first, length,
}
use deep_agent_test.Result.{http, database_error}
use deep_agent_test.Infrastructure.Columns.{fits_optional}
use deep_agent_test.Domain.Entities.{CounterpartyModel, SettlementInstructionModel}
use deep_agent_test.Domain.Triage.{ReferenceDataModel}
use deep_agent_test.Infrastructure.Db.{
  Exec, or_raise, raise_if, pure, gets, modify, commit, ◌>>=◌, ◌>>◌,
}
use deep_agent_test.Infrastructure.MasterData.{
  list_counterparty_rows, list_ssi_rows, list_reference_rows, update_counterparty_row, or_old,
}
use deep_agent_test.Infrastructure.RuleEngine.{is_counterparty}
use deep_agent_test.Infrastructure.Runtime.{Runtime}
use deep_agent_test.Presentation.Exceptions.{is_page_size}

module _ (precedes : String → String → Bool) where
  unfoldable pub list_counterparties :
      Option String → Option String → ℕ → ℕ → Exec (List CounterpartyModel × ℕ)
  list_counterparties lei name limit offset = do
    raise_if (not (is_page_size limit)) (http 422)
    list_counterparty_rows precedes lei name limit offset

  unfoldable pub list_ssis :
      Option String → Option Bool → ℕ → ℕ → Exec (List SettlementInstructionModel × ℕ)
  list_ssis lei is_external limit offset = list_ssi_rows precedes lei is_external limit offset

  unfoldable pub list_reference_data : Exec (List ReferenceDataModel × ℕ)
  list_reference_data = do rows ← list_reference_rows precedes; pure (rows, length rows)

unfoldable pub get_counterparty : String → Exec CounterpartyModel
get_counterparty lei = do
  row ← gets (λ db. find_first (is_counterparty lei) db.counterparties)
  or_raise row (http 404)

-- `CounterpartyUpdateRequest`
pub record CounterpartyUpdateRequest : Type 0 where
  pub name : Option String
  pub bic : Option String
  pub is_active : Option Bool

unfoldable pub update_counterparty :
    Runtime → String → CounterpartyUpdateRequest → Exec CounterpartyModel
update_counterparty rt lei body = do
  row ← update_counterparty_row rt lei body.name body.bic body.is_active
  or_raise row (http 404)

-- The handlers `get_ssi` and `update_ssi`.
abbrev pub has_ssi_id : ℕ → SettlementInstructionModel → Bool
has_ssi_id ssi_id row = row.id == ssi_id

unfoldable pub get_ssi_by_id : ℕ → Exec SettlementInstructionModel
get_ssi_by_id ssi_id = do
  row ← gets (λ db. find_first (has_ssi_id ssi_id) db.ssis)
  or_raise row (http 404)

pub record SsiUpdateRequest : Type 0 where
  pub bic : Option String
  pub account : Option String
  pub iban : Option String

abbrev or_same : Option String → Option String → Option String
or_same none old = old
or_same (some new) old = some new

module _ (rt : Runtime) where
  abbrev pub with_ssi_update :
      SsiUpdateRequest → SettlementInstructionModel → SettlementInstructionModel
  with_ssi_update body row = record row {
    bic = or_old body.bic row.bic;
    account = or_old body.account row.account;
    iban = or_same body.iban row.iban;
    updated_at = rt.now;
  }

  unfoldable pub update_ssi_by_id : ℕ → SsiUpdateRequest → Exec SettlementInstructionModel
  update_ssi_by_id ssi_id body = do
    found ← gets (λ db. find_first (has_ssi_id ssi_id) db.ssis)
    row ← or_raise found (http 404)
    raise_if
        (not (
          fits_optional 15 body.bic
          && (fits_optional 100 body.account && fits_optional 50 body.iban)))
        database_error
    modify
        λ db. record db { ssis = update_first (has_ssi_id ssi_id) (with_ssi_update body) db.ssis }
    commit
    pure (with_ssi_update body row)
