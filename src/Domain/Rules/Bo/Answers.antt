-- ===== src/Domain/Rules/Bo/Answers.antt =====
-- The answers of the BoCheck rules of src/domain/check_rules.py where `schwifty` is installed.
use deep_agent_test.Prelude.{
  ◌≡◌, refl, String, Bool, true, false, not, ◌||◌, Option, none, some, length, ◌==◌, if◌then◌else◌,
}
use deep_agent_test.Result.{Result, ok}
use deep_agent_test.Domain.Text.{codes}
use deep_agent_test.Domain.Entities.{TradeModel, CounterpartyModel, SettlementInstructionModel}
use deep_agent_test.Domain.Rules.Fo.{Verdict}
use deep_agent_test.Domain.Rules.Iban.{iban_re}
use deep_agent_test.Domain.Rules.Bo.{
  counterparty_exists, counterparty_active, ssi_exists, bic_format_valid, iban_format_valid,
  check_iban, checksum, risk_limit_check, compliance_check, settlement_confirmed,
}

-- A rule that raises nothing.
pub record Says (r : Result Verdict) : Type 0 where
  pub verdict : Verdict
  pub says : r ≡ ok verdict

either : (b : Bool) (v w : Verdict) (r : Result Verdict) → r ≡ ok w → Says (if b then ok v else r)
either true v w r e = record { verdict = v; says = refl }
either false v w r e = record { verdict = w; says = e }

module _ (trade : TradeModel) where
  pub counterparty_exists-Says :
      (cp : Option CounterpartyModel) (ssi : Option SettlementInstructionModel)
      → Says (counterparty_exists trade cp ssi)
  unfolding counterparty_exists
  counterparty_exists-Says none ssi = record { verdict = _; says = refl }
  counterparty_exists-Says (some cp) ssi = record { verdict = _; says = refl }

  pub counterparty_active-Says :
      (cp : Option CounterpartyModel) (ssi : Option SettlementInstructionModel)
      → Says (counterparty_active trade cp ssi)
  unfolding counterparty_active
  counterparty_active-Says none ssi = record { verdict = _; says = refl }
  counterparty_active-Says (some cp) ssi = either (not cp.is_active) _ _ _ refl

  pub ssi_exists-Says :
      (cp : Option CounterpartyModel) (ssi : Option SettlementInstructionModel)
      → Says (ssi_exists trade cp ssi)
  unfolding ssi_exists
  ssi_exists-Says cp none = record { verdict = _; says = refl }
  ssi_exists-Says cp (some ssi) = record { verdict = _; says = refl }

  pub bic_format_valid-Says :
      (cp : Option CounterpartyModel) (ssi : Option SettlementInstructionModel)
      → Says (bic_format_valid trade cp ssi)
  unfolding bic_format_valid
  bic_format_valid-Says cp none = record { verdict = _; says = refl }
  bic_format_valid-Says cp (some ssi) =
      either (length (codes ssi.bic) == 8 || length (codes ssi.bic) == 11) _ _ _ refl

  checksum-Says : (accepts : String → Bool) (iban : String) → Says (checksum (some accepts) iban)
  unfolding checksum
  checksum-Says accepts iban = either (accepts iban) _ _ _ refl

  check_iban-Says :
      (accepts : String → Bool) (iban : Option String) → Says (check_iban (some accepts) iban)
  unfolding check_iban
  check_iban-Says accepts none = record { verdict = _; says = refl }
  check_iban-Says accepts (some iban) =
      let v = checksum-Says accepts iban in either (not (iban_re (codes iban))) _ v.verdict _ v.says

  pub iban_format_valid-Says :
      (accepts : String → Bool) (cp : Option CounterpartyModel)
      (ssi : Option SettlementInstructionModel)
      → Says (iban_format_valid (some accepts) trade cp ssi)
  unfolding iban_format_valid
  iban_format_valid-Says accepts cp none = record { verdict = _; says = refl }
  iban_format_valid-Says accepts cp (some ssi) = check_iban-Says accepts ssi.iban

  pub risk_limit_check-Says :
      (cp : Option CounterpartyModel) (ssi : Option SettlementInstructionModel)
      → Says (risk_limit_check trade cp ssi)
  unfolding risk_limit_check
  risk_limit_check-Says cp ssi = record { verdict = _; says = refl }

  pub compliance_check-Says :
      (cp : Option CounterpartyModel) (ssi : Option SettlementInstructionModel)
      → Says (compliance_check trade cp ssi)
  unfolding compliance_check
  compliance_check-Says cp ssi = record { verdict = _; says = refl }

  pub settlement_confirmed-Says :
      (cp : Option CounterpartyModel) (ssi : Option SettlementInstructionModel)
      → Says (settlement_confirmed trade cp ssi)
  unfolding settlement_confirmed
  settlement_confirmed-Says cp ssi = record { verdict = _; says = refl }
