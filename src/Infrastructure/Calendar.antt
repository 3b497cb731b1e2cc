-- ===== src/Infrastructure/Calendar.antt =====
-- src/infrastructure/calendar_service.py. A currency is the list of its code points; `upper` is
-- that of ASCII texts.
pub mod Answers
use deep_agent_test.Prelude.{
  ℕ, String, Bool, true, false, not, ◌&&◌, ◌||◌, Option, none, some, List, [], ◌∷◌, ◌++◌, map, any,
  select, length, leb, ◌==◌, text_eq, if◌then◌else◌,
}
use deep_agent_test.Result.{Error, Result, ok, err, value_error, os_error, ◌>>=◌}
use deep_agent_test.Domain.Dates.{Date, weekday}
use deep_agent_test.Domain.Text.{codes, is_upper, upper_code}

-- The keys of a holiday that the service reads.
pub record Holiday : Type 0 where
  pub date : Option String
  pub name : Option String
  pub local_name : Option String
  pub types : List String

pub record Market : Type 0 where
  pub currency : List ℕ
  pub country_code : String
  pub is_weekend : Bool
  pub holidays : List Holiday

-- What `reason` says.
pub data Reason : Type 0 where
  malformed lookup_failed : Error → Reason
  closed : List Market → Reason
  open_ : Reason

pub record Answer : Type 0 where
  pub status_ok : Bool
  pub is_business_day : Option Bool
  pub reason : Reason
  pub markets : List Market

-- The environment variable for the euro, `date.fromisoformat`, `date.year`, and the fetcher.
pub record CalendarRuntime : Type 0 where
  pub eur_country : String
  pub from_isoformat : String → Option Date
  pub year : Date → ℕ
  pub fetch : ℕ → String → Result (List Holiday)

-- The first three letters and the rest, of six.
abbrev split_pair : List ℕ → Result (List ℕ × List ℕ)
split_pair (a ∷ b ∷ c ∷ d ∷ e ∷ f ∷ []) = ok (a ∷ b ∷ c ∷ [], d ∷ e ∷ f ∷ [])
split_pair _ = err value_error

unfoldable pub parse_fx_pair : String → Result (List ℕ × List ℕ)
parse_fx_pair instrument_id = split_pair (select is_upper (map upper_code (codes instrument_id)))

abbrev same_codes : List ℕ → List ℕ → Bool
same_codes [] [] = true
same_codes (a ∷ xs) (b ∷ ys) = a == b && same_codes xs ys
same_codes _ _ = false

-- `_CCY_TO_COUNTRY`
abbrev countries : List (String × String)
countries =
    ("USD", "US")
    ∷ ("JPY", "JP")
    ∷ ("GBP", "GB")
    ∷ ("AUD", "AU")
    ∷ ("CHF", "CH")
    ∷ ("CAD", "CA")
    ∷ ("NZD", "NZ")
    ∷ []

abbrev country_of : List ℕ → List (String × String) → Result String
country_of ccy [] = err value_error
country_of ccy ((c, country) ∷ rest) =
    let more = country_of ccy rest in if same_codes ccy (codes c) then ok country else more

abbrev parsed : Option Date → Result Date
parsed none = err value_error
parsed (some d) = ok d

module _ (env : CalendarRuntime) where
  -- The currencies of a pair are capital letters, on which `upper` does nothing.
  unfoldable pub currency_to_country : List ℕ → Result String
  currency_to_country ccy =
      if same_codes ccy (codes "EUR") then ok env.eur_country else country_of ccy countries

  -- The part of `check_fx_value_date` in its first `try`.
  unfoldable pub read_request :
      String → String → Result (Date × (List ℕ × String) × (List ℕ × String))
  unfolding parse_fx_pair currency_to_country
  read_request instrument_id value_date = do
    date ← parsed (env.from_isoformat value_date)
    currencies ← parse_fx_pair instrument_id
    base ← currency_to_country currencies.0
    quote ← currency_to_country currencies.1
    ok (date, (currencies.0, base), (currencies.1, quote))

abbrev pub is_on : String → Holiday → Bool
is_on value_date h = elim h.date [ none ↦ false | some d ↦ text_eq d value_date ]

abbrev pub market_of : Date → String → List ℕ × String → List Holiday → Market
market_of date value_date (currency, country) holidays = record {
  currency = currency;
  country_code = country;
  is_weekend = leb 5 (weekday date);
  holidays = select (is_on value_date) holidays;
}

abbrev pub is_empty : List Holiday → Bool
is_empty [] = true
is_empty (h ∷ hs) = false

abbrev is_closed : Market → Bool
is_closed market = market.is_weekend || not (is_empty market.holidays)

-- The answer once both markets are known.
abbrev judged_closed : List Market → List Market → Answer
judged_closed markets [] = record {
  status_ok = true;
  is_business_day = some true;
  reason = open_;
  markets = markets;
}
judged_closed markets (m ∷ ms) = record {
  status_ok = true;
  is_business_day = some false;
  reason = closed (m ∷ ms);
  markets = markets;
}

abbrev pub judged : List Market → Answer
judged markets = judged_closed markets (select is_closed markets)

abbrev unknown : Reason → List Market → Answer
unknown reason markets = record {
  status_ok = false;
  is_business_day = none;
  reason = reason;
  markets = markets;
}

-- What the two handlers catch.
abbrev is_caught : Error → Bool
is_caught value_error = true
is_caught os_error = true
is_caught _ = false

abbrev failed_lookup : Error → List Market → Result Answer
failed_lookup e markets = if is_caught e then ok (unknown (lookup_failed e) markets) else err e

abbrev malformed_request : Error → Result Answer
malformed_request value_error = ok (unknown (malformed value_error) [])
malformed_request e = err e

module _ (env : CalendarRuntime) where
  -- The loop over the two currencies; a failed lookup keeps the markets found so far.
  abbrev pub look_up : Date → String → List (List ℕ × String) → List Market → Result Answer
  look_up date value_date [] markets = ok (judged markets)
  look_up date value_date (pair ∷ pairs) markets = elim (env.fetch (env.year date) pair.1) [
    | ok holidays ↦
        look_up date value_date pairs (markets ++ market_of date value_date pair holidays ∷ [])
    | err e ↦ failed_lookup e markets
  ]

  unfoldable pub check_fx_value_date : String → String → Result Answer
  unfolding read_request
  check_fx_value_date instrument_id value_date = elim (read_request env instrument_id value_date) [
    | ok (date, base, quote) ↦ look_up date value_date (base ∷ quote ∷ []) []
    | err e ↦ malformed_request e
  ]
