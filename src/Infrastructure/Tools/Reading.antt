-- ===== src/Infrastructure/Tools/Reading.antt =====
-- The tools of src/infrastructure/tools.py that only read. Each returns the object that the code
-- gives to `json.dumps`. The database is configured; the stored results of the checks are written
-- out by the format.
use Prim.Native.String.{◌++◌ as ◌<>◌}
use deep_agent_test.Prelude.{
  ℕ, String, Bool, true, false, Option, none, some, List, [], ◌∷◌, ltb, find_first, text_eq,
}
use deep_agent_test.Domain.Classification.{TradeType}
use deep_agent_test.Domain.Dates.{Date}
use deep_agent_test.Domain.Entities.{
  TradeModel, CheckResult, CounterpartyModel, SettlementInstructionModel, RootCause,
}
use deep_agent_test.Domain.Json.{Json, Jsons, Members, null, bool, num, str, obj}
use deep_agent_test.Domain.Numbers.{Decimal}
use deep_agent_test.Domain.Text.{codes}
use deep_agent_test.Domain.Triage.{TriageRunModel, TriageStatus, completed, ReferenceDataModel}
use deep_agent_test.Infrastructure.Db.{Exec, pure, gets, ◌>>=◌}
use deep_agent_test.Infrastructure.RuleEngine.{is_counterparty}
use deep_agent_test.Infrastructure.TradeRepository.{get_current}
use deep_agent_test.Infrastructure.TradeRepository.Listing.{status_text}
use deep_agent_test.Infrastructure.Tools.{get_ssi}

-- Python's texts for numbers, decimals, dates, times and enumerations.
pub record Format : Type 0 where
  pub number : ℕ → List ℕ
  pub decimal : Decimal → String
  pub isoformat : Date → String
  pub timestamp : ℕ → String
  pub trade_type : TradeType → String
  pub root_cause : RootCause → String
  pub results : List CheckResult → Json

abbrev pub text : String → Json
text s = str (codes s)

abbrev pub or_null : Option String → Json
or_null none = null
or_null (some s) = text s

-- A JSON object from its keys and values, in their order.
unfoldable pub object : List (String × Json) → Members
object [] = Members.no_members
object ((key, value) ∷ rest) = Members.member (codes key) value (object rest)

unfoldable pub items : List Members → Jsons
items [] = Jsons.no_items
items (m ∷ ms) = Jsons.item (obj m) (items ms)

unfoldable pub error_answer : String → Members
unfolding object
error_answer message = object (("error", text message) ∷ [])

-- The answer for a row, or for its absence.
abbrev pub answer_for : {A : Type 0} → Members → (A → Members) → Option A → Members
answer_for missing found none = missing
answer_for missing found (some row) = found row

abbrev pub is_instrument : String → ReferenceDataModel → Bool
is_instrument instrument_id row = text_eq row.instrument_id instrument_id

abbrev pub is_completed_run : String → TriageRunModel → Bool
is_completed_run trade_id run = elim run.status [
  | completed ↦ text_eq run.trade_id trade_id
  | TriageStatus.pending_approval ↦ false
]

abbrev pub newer_run : TriageRunModel → TriageRunModel → Bool
newer_run a b = ltb b.created_at a.created_at

module _ (f : Format) where
  abbrev pub number : ℕ → Json
  number n = num (f.number n)

  unfoldable pub trade_detail : TradeModel → Members
  unfolding object status_text
  trade_detail row = object (
      ("trade_id", text row.trade_id)
      ∷ ("version", number row.version)
      ∷ ("workflow_status", text (status_text row.workflow_status))
      ∷ ("sendback_count", number row.sendback_count)
      ∷ ("counterparty_lei", text row.counterparty_lei)
      ∷ ("instrument_id", text row.instrument_id)
      ∷ ("currency", text row.currency)
      ∷ ("amount", text (f.decimal row.amount))
      ∷ ("fx_rate", text (f.decimal row.fx_rate))
      ∷ ("trade_type", text (f.trade_type row.trade_type))
      ∷ ("trade_date", text (f.isoformat row.trade_date))
      ∷ ("input_date", text (f.isoformat row.input_date))
      ∷ ("value_date", text (f.isoformat row.value_date))
      ∷ ("settlement_currency", text row.settlement_currency)
      ∷ [])

  unfoldable pub get_trade_detail : String → Exec Members
  unfolding error_answer trade_detail
  get_trade_detail trade_id = do
    row ← get_current trade_id
    pure (
        answer_for (error_answer ("Trade '" <> (trade_id <> "' not found in trade system.")))
          trade_detail row)

-- What the two look-ups of settlement instructions say of a row.
unfoldable pub ssi_members : SettlementInstructionModel → List (String × Json)
ssi_members row =
    ("lei", text row.lei)
    ∷ ("currency", text row.currency)
    ∷ ("bic", text row.bic)
    ∷ ("account", text row.account)
    ∷ ("iban", or_null row.iban)
    ∷ []

unfoldable pub no_ssi : String → String → String → Members
unfolding object
no_ssi message lei currency = object (
    ("found", bool false)
    ∷ ("lei", text lei)
    ∷ ("currency", text currency)
    ∷ ("message", text (message <> (lei <> ("' / currency '" <> (currency <> "'.")))))
    ∷ [])

unfoldable pub get_settlement_instructions : String → String → Exec Members
unfolding object ssi_members no_ssi
get_settlement_instructions lei currency = do
  row ← get_ssi lei currency false
  pure (
      answer_for (no_ssi "No SSI registered for LEI '" lei currency)
        (λ ssi. object (("found", bool true) ∷ ssi_members ssi)) row)

unfoldable pub look_up_external_ssi : String → String → Exec Members
unfolding object ssi_members no_ssi
look_up_external_ssi lei currency = do
  row ← get_ssi lei currency true
  pure (
      answer_for (no_ssi "No SSI found in external source for LEI '" lei currency)
        (λ ssi. object (("found", bool true) ∷ ("source", text "external") ∷ ssi_members ssi)) row)

unfoldable pub get_reference_data : String → Exec Members
unfolding object
get_reference_data instrument_id = do
  row ← gets (λ db. find_first (is_instrument instrument_id) db.reference_data)
  pure (answer_for missing found row)
  where
    missing : Members
    missing = object (
        ("found", bool false)
        ∷ ("instrument_id", text instrument_id)
        ∷ ("message", text ("Instrument '" <> (instrument_id <> "' not found in reference data.")))
        ∷ [])

    found : ReferenceDataModel → Members
    found row = object (
        ("found", bool true)
        ∷ ("instrument_id", text row.instrument_id)
        ∷ ("description", text row.description)
        ∷ ("asset_class", text row.asset_class)
        ∷ ("is_active", bool row.is_active)
        ∷ [])

unfoldable pub get_counterparty : String → Exec Members
unfolding object
get_counterparty lei = do
  row ← gets (λ db. find_first (is_counterparty lei) db.counterparties)
  pure (answer_for missing found row)
  where
    missing : Members
    missing = object (
        ("found", bool false)
        ∷ ("lei", text lei)
        ∷ ("message", text ("Counterparty with LEI '" <> (lei <> "' not found in master data.")))
        ∷ [])

    found : CounterpartyModel → Members
    found row = object (
        ("found", bool true)
        ∷ ("lei", text row.lei)
        ∷ ("name", text row.name)
        ∷ ("bic", text row.bic)
        ∷ ("is_active", bool row.is_active)
        ∷ [])
