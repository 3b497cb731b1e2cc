-- ===== src/Domain/Classification.antt =====
-- src/domain/trade_classification.py: business days between two dates, and the trade type.
pub mod Laws
use deep_agent_test.Prelude.{ℕ, zero, suc, ◌+◌, ◌-◌, Bool, true, false, leb, ltb, if◌then◌else◌}
use deep_agent_test.Result.{Result, ok, err, no_fuel, ◌>>=◌}
use deep_agent_test.Domain.Dates.{Date, weekday, add_days}

-- `while current <= end`, on fuel.
count_loop : ℕ → Date → Date → ℕ → Result ℕ
unfolding add_days
count_loop zero current end count = err no_fuel
count_loop (suc fuel) current end count = elim (leb current end) [
  | true ↦ add_days current 1 >>= λ next.
      count_loop fuel next end (if ltb (weekday current) 5 then count + 1 else count)
  | false ↦ ok count
]

unfoldable pub count_business_days_exclusive_start : Date → Date → Result ℕ
unfolding count_loop add_days
count_business_days_exclusive_start start end =
    if leb end start
    then ok 0
    else (add_days start 1 >>= λ current. count_loop (end - start + 1) current end 0)

pub data TradeType : Type 0 where
  spot forward : TradeType

unfoldable pub calculate_trade_type : Date → Date → Result TradeType
unfolding count_business_days_exclusive_start
calculate_trade_type trade_date value_date = do
  business_days ← count_business_days_exclusive_start trade_date value_date
  ok (if ltb 2 business_days then forward else spot)
