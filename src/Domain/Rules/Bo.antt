-- ===== src/Domain/Rules/Bo.antt =====
-- The BoCheck rules of src/domain/check_rules.py. The package `schwifty` is a parameter: `none`
-- where its import fails, else the test whether `IBAN(text)` accepts the text.
pub mod Answers
use deep_agent_test.Prelude.{
  String, Bool, true, false, not, ◌||◌, Option, none, some, List, [], ◌∷◌, length, ◌==◌,
  if◌then◌else◌,
}
use deep_agent_test.Result.{Result, ok, ◌>>=◌}
use deep_agent_test.Domain.Text.{codes}
use deep_agent_test.Domain.Entities.{
  Message, Severity, error, TradeModel, CounterpartyModel, SettlementInstructionModel,
}
use deep_agent_test.Domain.Rules.Fo.{Verdict}
use deep_agent_test.Domain.Rules.Iban.{iban_re, iban_mod97_valid}

abbrev pub BoCheck : Type 0
BoCheck = TradeModel → Option CounterpartyModel → Option SettlementInstructionModel → Result Verdict

pub record BoRule : Type 0 where
  pub rule_name : String
  pub severity : Severity
  pub check_fn : BoCheck

pub counterparty_exists : BoCheck
counterparty_exists trade none ssi = ok (false, Message.counterparty_missing trade.counterparty_lei)
counterparty_exists trade (some cp) ssi =
    ok (true, Message.counterparty_found trade.counterparty_lei)

pub counterparty_active : BoCheck
counterparty_active trade none ssi = ok (false, Message.counterparty_unverified)
counterparty_active trade (some cp) ssi =
    if not cp.is_active
    then ok (false, Message.counterparty_inactive trade.counterparty_lei cp.name)
    else ok (true, Message.counterparty_is_active trade.counterparty_lei)

pub ssi_exists : BoCheck
ssi_exists trade cp none = ok (false, Message.ssi_missing trade.counterparty_lei trade.currency)
ssi_exists trade cp (some ssi) = ok (true, Message.ssi_found trade.counterparty_lei trade.currency)

pub bic_format_valid : BoCheck
bic_format_valid trade cp none = ok (true, Message.bic_skipped)
bic_format_valid trade cp (some ssi) =
    let n = length (codes ssi.bic) in
    if n == 8 || n == 11
    then ok (true, Message.bic_good_length ssi.bic n)
    else ok (false, Message.bic_bad_length ssi.bic n)

module _ (schwifty : Option (String → Bool)) where
  -- The `try` statement: the local check stands in the handler of ImportError, so what it raises
  -- is not caught.
  pub checksum : String → Result Verdict
  checksum iban = elim schwifty [
    | some accepts ↦
        if accepts iban
        then ok (true, Message.iban_verified iban)
        else ok (false, Message.iban_rejected iban)
    | none ↦ iban_mod97_valid (codes iban) >>= λ valid.
        if not valid
        then ok (false, Message.iban_bad_checksum iban)
        else ok (true, Message.iban_verified_locally iban)
  ]

  pub check_iban : Option String → Result Verdict
  unfolding checksum
  check_iban none = ok (true, Message.no_iban)
  check_iban (some iban) =
      if not (iban_re (codes iban)) then ok (false, Message.iban_no_match iban) else checksum iban

  pub iban_format_valid : BoCheck
  unfolding check_iban
  iban_format_valid trade cp none = ok (true, Message.no_iban)
  iban_format_valid trade cp (some ssi) = check_iban ssi.iban

pub risk_limit_check : BoCheck
risk_limit_check trade cp ssi = ok (true, Message.risk_limit_passed)

pub compliance_check : BoCheck
compliance_check trade cp ssi = ok (true, Message.compliance_passed)

pub settlement_confirmed : BoCheck
settlement_confirmed trade cp ssi = ok (true, Message.settlement_stub)

-- `BO_RULES`
unfoldable pub bo_rules : Option (String → Bool) → List BoRule
unfolding counterparty_exists counterparty_active ssi_exists bic_format_valid iban_format_valid
    risk_limit_check compliance_check settlement_confirmed
bo_rules schwifty =
    rule "counterparty_exists" counterparty_exists
    ∷ rule "counterparty_active" counterparty_active
    ∷ rule "ssi_exists" ssi_exists
    ∷ rule "bic_format_valid" bic_format_valid
    ∷ rule "iban_format_valid" (iban_format_valid schwifty)
    ∷ rule "risk_limit_check" risk_limit_check
    ∷ rule "compliance_check" compliance_check
    ∷ rule "settlement_confirmed" settlement_confirmed
    ∷ []
  where
    rule : String → BoCheck → BoRule
    rule name check = record { rule_name = name; severity = error; check_fn = check }
