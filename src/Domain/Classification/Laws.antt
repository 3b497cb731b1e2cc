-- ===== src/Domain/Classification/Laws.antt =====
-- What the business-day count and the trade type promise.
use deep_agent_test.Prelude.{
  inl, inr, Bool-cases, ℕ, zero, suc, ◌+◌, ◌-◌, ◌≤◌, ◌<◌, ◌≡◌, refl, arith, ltb, leb, ◌==◌,
  if◌then◌else◌,
}
use deep_agent_test.Result.{ok, err, overflow_error}
use deep_agent_test.Domain.Dates.{Date, max_ordinal, weekday, add_days}
use deep_agent_test.Domain.Classification.{
  count_loop, count_business_days_exclusive_start, spot, forward, calculate_trade_type,
}

-- The number of days from Monday to Friday among the n days after `start`.
abbrev pub business_days : Date → ℕ → ℕ
business_days start zero = 0
business_days start (suc n) =
    (if ltb (weekday (start + 1)) 5 then 1 else 0) + business_days (start + 1) n

count_loop_lem :
    (n fuel current end : ℕ) (count : ℕ)
    → n < fuel
    → current + n ≡ end
    → end < max_ordinal
    → count_loop fuel (current + 1) end count ≡ ok (count + business_days current n)
unfolding count_loop add_days
count_loop_lem n zero current end count h e m = absurd (omega arith)
count_loop_lem zero (suc fuel) current end count h e m = ground arith
count_loop_lem (suc n) (suc fuel) current end count h e m = ground (
  arith,
  count_loop_lem n fuel (current + 1) end (count + 1),
  count_loop_lem n fuel (current + 1) end count,
)

count_loop_overflow :
    (n fuel current : ℕ) (count : ℕ)
    → n < fuel
    → current + suc n ≡ max_ordinal
    → count_loop (suc fuel) (current + 1) max_ordinal count ≡ err overflow_error
unfolding count_loop add_days
count_loop_overflow n zero current count h e = absurd (omega arith)
count_loop_overflow zero (suc fuel) current count h e = ground arith
count_loop_overflow (suc n) (suc fuel) current count h e = ground (
  arith,
  count_loop_overflow n fuel (current + 1) (count + 1),
  count_loop_overflow n fuel (current + 1) count,
)

-- For dates that Python can hold, the loop ends, counts exactly the days from Monday to Friday
-- after the start, the end included, and gives 0 for an end that is not later. The one exception
-- is an end of 9999-12-31, later than the start: the step past it raises OverflowError.
pub count_business_days_lem :
    (start end : Date)
    → end ≤ max_ordinal
    → count_business_days_exclusive_start start end ≡ (
        if leb end start
        then ok 0
        else if end == max_ordinal
        then err overflow_error
        else ok (business_days start (end - start)))
unfolding count_business_days_exclusive_start add_days
count_business_days_lem start end h = elim (Bool-cases (leb end start)) [
  | inl early ↦ rw early
  | inr late ↦ elim (Bool-cases (end == max_ordinal)) [
    | inl last ↦ ground (arith, count_loop_overflow (end - start - 1) (end - start) start 0)
    | inr inner ↦ ground (arith, count_loop_lem (end - start) (end - start + 1) start end 0)
  ]
]

business_days_period : (start n : ℕ) → business_days (start + 7) n ≡ business_days start n
business_days_period start zero = refl
business_days_period start (suc n) =
    let e : start + 7 + 1 ≡ start + 1 + 7 = omega arith in
    rw e (ground (arith, business_days_period (start + 1) n))

-- Any seven days in a row hold five business days.
pub business_days_week : (start n : ℕ) → business_days start (7 + n) ≡ 5 + business_days start n
business_days_week start n =
    let e : 7 + n ≡ suc (suc (suc (suc (suc (suc (suc n)))))) = omega arith in
    let f : start + 1 + 1 + 1 + 1 + 1 + 1 + 1 ≡ start + 7 = omega arith in
    rw e (rw f (ground (arith, business_days_period start n)))

business_days_mono : (start n m : ℕ) → n ≤ m → business_days start n ≤ business_days start m
business_days_mono start zero m h = omega arith
business_days_mono start (suc n) zero h = absurd (omega arith)
business_days_mono start (suc n) (suc m) h = ground (arith, business_days_mono (start + 1) n m)

business_days_le : (start n : ℕ) → business_days start n ≤ n
business_days_le start zero = omega arith
business_days_le start (suc n) = ground (arith, business_days_le (start + 1) n)

business_days_five : (start : ℕ) → 3 ≤ business_days start 5
business_days_five start = ground arith

-- A value date from the trade date up to two days after it makes a spot trade, and one five or
-- more days after it, before 9999-12-31, a forward; between, the weekend decides.
pub trade_type_bounds :
    (trade_date value_date : Date)
    → value_date < max_ordinal
    → (value_date ≤ trade_date + 2 → calculate_trade_type trade_date value_date ≡ ok spot)
      × (trade_date + 5 ≤ value_date → calculate_trade_type trade_date value_date ≡ ok forward)
unfolding calculate_trade_type
trade_type_bounds t v h = (
  λ near. ground (arith, count_business_days_lem t v, business_days_le t (v - t)),
  λ far.
      ground
        (arith, count_business_days_lem t v, business_days_mono t 5 (v - t), business_days_five t),
)
