-- ===== src/Infrastructure/MasterData.antt =====
-- src/infrastructure/db/counterparty_repository.py, and the lists of ssi_repository.py and
-- reference_data_repository.py. The database's order of texts is an argument.
use deep_agent_test.Prelude.{
  ℕ, String, Bool, true, not, ◌&&◌, ◌||◌, Option, none, some, List, find_first, update_first,
  text_eq, if◌then◌else◌,
}
use deep_agent_test.Result.{database_error}
use deep_agent_test.Domain.Entities.{CounterpartyModel, SettlementInstructionModel}
use deep_agent_test.Domain.Triage.{ReferenceDataModel}
use deep_agent_test.Infrastructure.Columns.{fits_optional}
use deep_agent_test.Infrastructure.Db.{Exec, raise_if, pure, gets, modify, commit, ◌>>=◌, ◌>>◌}
use deep_agent_test.Infrastructure.Query.{has_part, page, order_by}
use deep_agent_test.Infrastructure.RuleEngine.{is_counterparty}
use deep_agent_test.Infrastructure.Runtime.{Runtime}
use deep_agent_test.Infrastructure.ExceptionRepository.{unless_empty}

-- By the first key, and by the second one where that is the same.
abbrev pub lexicographic : (String → String → Bool) → String × String → String × String → Bool
lexicographic precedes a b = precedes a.0 b.0 || (text_eq a.0 b.0 && precedes a.1 b.1)

module _ (precedes : String → String → Bool) where
  abbrev pub named : Option String → Option String → CounterpartyModel → Bool
  named lei name row =
      unless_empty lei (λ text. has_part text row.lei)
      && unless_empty name (λ text. has_part text row.name)

  unfoldable pub list_counterparty_rows :
      Option String → Option String → ℕ → ℕ → Exec (List CounterpartyModel × ℕ)
  list_counterparty_rows lei name limit offset =
      gets
        λ db. page (named lei name) (λ a b. precedes a.name b.name) limit offset db.counterparties

  abbrev pub same_side : Option Bool → Bool → Bool
  same_side none is_external = true
  same_side (some wanted) is_external = if wanted then is_external else not is_external

  abbrev pub settled : Option String → Option Bool → SettlementInstructionModel → Bool
  settled lei is_external row =
      unless_empty lei (λ text. has_part text row.lei) && same_side is_external row.is_external

  unfoldable pub list_ssi_rows :
      Option String → Option Bool → ℕ → ℕ → Exec (List SettlementInstructionModel × ℕ)
  list_ssi_rows lei is_external limit offset = gets λ db.
      page (settled lei is_external)
        (λ a b. lexicographic precedes (a.lei, a.currency) (b.lei, b.currency)) limit offset db.ssis

  unfoldable pub list_reference_rows : Exec (List ReferenceDataModel)
  list_reference_rows = gets λ db.
      order_by
        (λ a b.
          lexicographic precedes (a.asset_class, a.instrument_id) (b.asset_class, b.instrument_id))
        db.reference_data

abbrev pub or_old : {A : Type 0} → Option A → A → A
or_old none old = old
or_old (some new) old = new

module _ (rt : Runtime) where
  abbrev pub edited :
      Option String → Option String → Option Bool → CounterpartyModel → CounterpartyModel
  edited name bic is_active row = record row {
    name = or_old name row.name;
    bic = or_old bic row.bic;
    is_active = or_old is_active row.is_active;
    updated_at = rt.now;
  }

  abbrev pub edit_found :
      String
      → Bool
      → (CounterpartyModel → CounterpartyModel)
      → Option CounterpartyModel
      → Exec (Option CounterpartyModel)
  edit_found lei fitting change none = pure none
  edit_found lei fitting change (some row) = do
    raise_if (not fitting) database_error
    modify λ db. record db {
      counterparties = update_first (is_counterparty lei) change db.counterparties;
    }
    commit
    pure (some (change row))

  -- `CounterpartyRepository.update`
  unfoldable pub update_counterparty_row :
      String → Option String → Option String → Option Bool → Exec (Option CounterpartyModel)
  update_counterparty_row lei name bic is_active = do
    row ← gets (λ db. find_first (is_counterparty lei) db.counterparties)
    edit_found lei (fits_optional 200 name && fits_optional 15 bic) (edited name bic is_active) row
