-- ===== src/Tests/Calendar.antt =====
-- The calendar service on a holiday of one market.
use deep_agent_test.Prelude.{
  ℕ, ◌≡◌, refl, String, not, ◌&&◌, some, none, List, [], ◌∷◌, any, leb, text_eq, if◌then◌else◌,
}
use deep_agent_test.Result.{Result, ok}
use deep_agent_test.Domain.Dates.{weekday}
use deep_agent_test.Domain.Text.{codes}
use deep_agent_test.Infrastructure.Calendar.{
  Holiday, CalendarRuntime, read_request, check_fx_value_date,
}
use deep_agent_test.Infrastructure.Calendar.Answers.{IsDecided, dated, check_fx_value_date_lem}

abbrev greenery_day : Holiday
greenery_day = record {
  date = some "2026-05-04";
  name = some "Greenery Day";
  local_name = none;
  types = [];
}

abbrev holidays_of : ℕ → String → Result (List Holiday)
holidays_of year country = ok (if text_eq country "JP" then greenery_day ∷ [] else [])

abbrev world : CalendarRuntime
world = record {
  eur_country = "DE";
  from_isoformat = λ s. if text_eq s "2026-05-04" then some 739740 else none;
  year = λ d. 2026;
  fetch = holidays_of;
}

readable :
    read_request world "usd/jpy" "2026-05-04"
    ≡ ok (739740, (codes "USD", "US"), (codes "JPY", "JP"))
unfolding read_request
readable = refl

check_fx_value_date_lem_example :
    IsDecided
      (not (leb 5 (weekday 739740))
        && (not (any (dated "2026-05-04") [])
            && not (any (dated "2026-05-04") (greenery_day ∷ []))))
      (check_fx_value_date world "usd/jpy" "2026-05-04")
check_fx_value_date_lem_example =
    check_fx_value_date_lem world "usd/jpy" "2026-05-04" 739740 (codes "USD", "US")
      (codes "JPY", "JP") [] (greenery_day ∷ []) readable refl refl
