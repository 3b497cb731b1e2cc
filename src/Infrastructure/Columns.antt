-- ===== src/Infrastructure/Columns.antt =====
-- What the columns of src/infrastructure/db/models.py take: String(n) and Numeric(20, n). A value
-- that does not fit makes the flush raise DataError.
use deep_agent_test.Prelude.{
  ℕ, ◌+◌, ◌-◌, ◌*◌, ◌/◌, ◌^◌, String, Bool, true, Option, none, some, ◌&&◌, length, leb, ltb,
  if◌then◌else◌,
}
use deep_agent_test.Domain.Entities.{TradeModel, SettlementInstructionModel}
use deep_agent_test.Domain.Numbers.{ℤ, pos, negsuc, Decimal}
use deep_agent_test.Domain.Text.{codes}

-- `String(n)` counts characters.
unfoldable pub fits : ℕ → String → Bool
fits n text = leb (length (codes text)) n

unfoldable pub fits_optional : ℕ → Option String → Bool
unfolding fits
fits_optional n none = true
fits_optional n (some text) = fits n text

abbrev magnitude : ℤ → ℕ
magnitude (pos n) = n
magnitude (negsuc n) = n + 1

-- `Numeric(20, scale)`: the number, rounded to `scale` places, has at most 20 digits.
unfoldable pub fits_numeric : ℕ → Decimal → Bool
fits_numeric scale d =
    ltb (2 * magnitude d.coefficient * 10 ^ scale + 10 ^ d.places) (2 * 10 ^ 20 * 10 ^ d.places)

-- PostgreSQL rounds halves away from zero.
divide_rounded : ℕ → ℕ → ℕ
divide_rounded n unit = (2 * n + unit) / (2 * unit)

rounded_coefficient : ℤ → ℕ → ℤ
unfolding divide_rounded
rounded_coefficient (pos n) unit = pos (divide_rounded n unit)
rounded_coefficient (negsuc n) unit =
    let m = divide_rounded (n + 1) unit in if leb 1 m then negsuc (m - 1) else pos 0

-- The number that a column with `scale` places keeps.
unfoldable pub rounded : ℕ → Decimal → Decimal
unfolding rounded_coefficient
rounded scale d = if leb d.places scale then d else record {
  coefficient = rounded_coefficient d.coefficient (10 ^ (d.places - scale));
  places = scale;
}

-- The columns of `trades` but `trade_id`, whose identifiers are those that the allocation makes.
unfoldable pub fits_trade : TradeModel → Bool
unfolding fits fits_numeric
fits_trade row =
    fits 30 row.counterparty_lei
    && (fits 50 row.instrument_id
        && (fits 10 row.currency
            && (fits 10 row.settlement_currency
                && (fits_numeric 5 row.amount && fits_numeric 8 row.fx_rate))))

-- The columns of `settlement_instructions`.
unfoldable pub fits_ssi : SettlementInstructionModel → Bool
unfolding fits fits_optional
fits_ssi row =
    fits 30 row.lei
    && (fits 10 row.currency
        && (fits 15 row.bic && (fits 100 row.account && fits_optional 50 row.iban)))
