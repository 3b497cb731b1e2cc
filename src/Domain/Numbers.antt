-- ===== src/Domain/Numbers.antt =====
-- Python's `Decimal` as far as the program compares it: an integer coefficient and the number of
-- decimal places. NaN and the infinities are left out.
use deep_agent_test.Prelude.{ℕ, zero, suc, Bool, true, false}

-- `negsuc n` is -(n + 1).
pub data ℤ : Type 0 where
  pos : ℕ → ℤ
  negsuc : ℕ → ℤ

pub record Decimal : Type 0 where
  pub coefficient : ℤ
  pub places : ℕ

-- `d <= Decimal("0")`: a matter of the coefficient's sign.
abbrev pub le_zero : Decimal → Bool
le_zero d = elim d.coefficient [ pos n ↦ elim n [ zero ↦ true | suc k ↦ false ] | negsuc n ↦ true ]
