-- ===== src/Infrastructure/Calendar/Answers.antt =====
-- What src/infrastructure/calendar_service.py answers.
use deep_agent_test.Prelude.{
  ℕ, ◌≡◌, refl, Bool, true, false, none, text_eq, not, ◌&&◌, String, some, List, [], ◌∷◌, any,
  select, leb, arith,
}
use deep_agent_test.Result.{Result, ok}
use deep_agent_test.Domain.Dates.{Date, weekday}
use deep_agent_test.Infrastructure.Calendar.{
  Holiday, Market, Answer, CalendarRuntime, read_request, is_on, is_empty, judged, market_of,
  look_up, check_fx_value_date,
}

-- An answer that the rule engine may rely on: it judges the day exactly where it is no failure.
pub record IsDecided (open_day : Bool) (r : Result Answer) : Type 0 where
  pub answer : Answer
  pub returns : r ≡ ok answer
  pub status : answer.status_ok ≡ true
  pub day : answer.is_business_day ≡ some open_day

-- A holiday with a date that is that text.
abbrev pub dated : String → Holiday → Bool
dated text holiday = elim holiday.date [ some day ↦ text_eq day text | none ↦ false ]

is_empty-select : (p : Holiday → Bool) (hs : List Holiday) → is_empty (select p hs) ≡ not (any p hs)
is_empty-select p [] = refl
is_empty-select p (h ∷ hs) = ground (arith, is_empty-select p hs)

judged_status : (a b : Market) → (judged (a ∷ b ∷ [])).status_ok ≡ true
judged_status a b = ground arith

judged_day :
    (a b : Market)
    → (judged (a ∷ b ∷ [])).is_business_day
      ≡ some (not a.is_weekend && is_empty a.holidays && (not b.is_weekend && is_empty b.holidays))
judged_day a b = ground arith

module _ (env : CalendarRuntime) where
  -- Where the request can be read and both markets' holidays are known, the answer is no failure,
  -- and the day is a business day exactly if it is no Saturday or Sunday and neither market has a
  -- holiday whose date is the very text `value_date` of the request.
  pub check_fx_value_date_lem :
      (instrument_id value_date : String) (date : Date) (base quote : List ℕ × String)
      (base_holidays quote_holidays : List Holiday)
      → read_request env instrument_id value_date ≡ ok (date, base, quote)
      → env.fetch (env.year date) base.1 ≡ ok base_holidays
      → env.fetch (env.year date) quote.1 ≡ ok quote_holidays
      → IsDecided
          (not (leb 5 (weekday date))
            && (not (any (dated value_date) base_holidays)
                && not (any (dated value_date) quote_holidays)))
          (check_fx_value_date env instrument_id value_date)
  unfolding check_fx_value_date
  check_fx_value_date_lem instrument_id value_date date base quote bh qh r b q =
      let a = market_of date value_date base bh in
      let b' = market_of date value_date quote qh in
      let run : check_fx_value_date env instrument_id value_date ≡ ok (judged (a ∷ b' ∷ [])) =
        rw (check_fx_value_date, r) (rw (look_up, b) (rw (look_up, q) refl)) in
      record {
        answer = judged (a ∷ b' ∷ []);
        returns = run;
        status = judged_status a b';
        day = ground (
          arith,
          judged_day a b',
          is_empty-select (is_on value_date) bh,
          is_empty-select (is_on value_date) qh,
        );
      }
