-- ===== src/Tests/Domain.antt =====
-- The theorems on dates and IBANs at concrete inputs.
use deep_agent_test.Prelude.{◌≡◌, refl, arith, true, false, [], ◌+◌, ◌≤◌}
use deep_agent_test.Result.{ok, err, overflow_error}
use deep_agent_test.Domain.Text.{codes, decimal_codes}
use deep_agent_test.Domain.Classification.{
  count_business_days_exclusive_start, calculate_trade_type, spot, forward,
}
use deep_agent_test.Domain.Classification.Laws.{count_business_days_lem, trade_type_bounds}
use deep_agent_test.Domain.Rules.Iban.{iban_re, iban_mod97_valid}
use deep_agent_test.Domain.Rules.Iban.Laws.{iban_mod97_valid_lem}

-- From Friday to the next Tuesday there are two business days.
friday_to_tuesday : count_business_days_exclusive_start 739737 739741 ≡ ok 2
unfolding count_business_days_exclusive_start
friday_to_tuesday = refl

count_business_days_lem_example : count_business_days_exclusive_start 739737 739741 ≡ ok 2
count_business_days_lem_example = count_business_days_lem 739737 739741 (omega arith)

last_day : count_business_days_exclusive_start 3652050 3652059 ≡ err overflow_error
last_day = count_business_days_lem 3652050 3652059 (omega arith)

trade_type_bounds_example :
    (739737 ≤ 739735 + 2 → calculate_trade_type 739735 739737 ≡ ok spot)
    × (739735 + 5 ≤ 739737 → calculate_trade_type 739735 739737 ≡ ok forward)
trade_type_bounds_example = trade_type_bounds 739735 739737 (omega arith)

-- GB82 WEST 1234 5698 7654 32, the standard's own example.
good_iban : iban_mod97_valid (codes "GB82WEST12345698765432") ≡ ok true
unfolding iban_mod97_valid decimal_codes
good_iban = refl

wrong_digit : iban_mod97_valid (codes "GB82WEST12345698765433") ≡ ok false
unfolding iban_mod97_valid decimal_codes
wrong_digit = refl

iban_shape : iban_re (codes "GB82WEST12345698765432") ≡ true
unfolding iban_re
iban_shape = refl

iban_mod97_valid_lem_example : iban_mod97_valid (codes "GB82W") ≡ ok false
iban_mod97_valid_lem_example =
    iban_mod97_valid_lem b'G' b'B' b'8' b'2' b'W' [] (refl, (refl, (refl, (refl, (refl, tt)))))
