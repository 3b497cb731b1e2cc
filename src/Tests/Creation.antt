-- ===== src/Tests/Creation.antt =====
-- The creation of a trade on the sample database.
use deep_agent_test.Prelude.{ℕ, ◌-◌, ◌^◌, true, ◌≡◌, refl, String, none, some, any, false, arith}
use deep_agent_test.Domain.Numbers.{Decimal, pos}
use deep_agent_test.Result.{ok, err, database_error}
use deep_agent_test.Infrastructure.Columns.{fits_numeric, fits_trade, rounded}
use deep_agent_test.Infrastructure.Db.{with_session, ◌>>=◌}
use deep_agent_test.Infrastructure.TradeRepository.Allocation.{
  trd_id, trd_number, max_number, row_max, allocate_next_trade_id,
}
use deep_agent_test.Infrastructure.TradeRepository.{is_current_of}
use deep_agent_test.Infrastructure.TradeRepository.Allocation.Laws.{
  allocate_next_trade_id_lem, trd_number-trd_id,
}
use deep_agent_test.Domain.Text.{decimal_codes}
use deep_agent_test.Domain.Classification.{calculate_trade_type, spot}
use deep_agent_test.Infrastructure.Validity.{IsValid}
use deep_agent_test.Presentation.Trades.Creation.{TradeCreateRequest, insert_new, create_trade}
use deep_agent_test.Presentation.Trades.Creation.Insertion.{
  IsNumbered, IsReady, FitsColumns, insert_new_succeeds,
}
use deep_agent_test.Presentation.Trades.Creation.Validity.{create_trade-IsValid}
use deep_agent_test.Tests.{sample, surroundings, amount_of}
use deep_agent_test.Tests.Events.{sample-IsValid, triage_keeps}

three_digits : trd_id 7 ≡ "TRD-007"
unfolding trd_id decimal_codes
three_digits = refl

four_digits : trd_id 1234 ≡ "TRD-1234"
unfolding trd_id decimal_codes
four_digits = refl

any_case : trd_number "trd-0012" ≡ some 12
unfolding trd_number
any_case = refl

-- Thai digits and a newline at the end.
other_digits : trd_number "TRD-๓๔\n" ≡ some 34
unfolding trd_number
other_digits = refl

no_digits : trd_number "TRD-" ≡ none
unfolding trd_number
no_digits = refl

trailing : trd_number "TRD-12a" ≡ none
unfolding trd_number
trailing = refl

abbrev request : TradeCreateRequest
request = record {
  trade_date = 739735;
  value_date = 739737;
  counterparty_lei = "LEI1";
  instrument_id = "USDJPY";
  currency = "USD";
  amount = amount_of 500;
  fx_rate = amount_of 150;
}

sample-IsNumbered : IsNumbered sample.trades
sample-IsNumbered = record { rooted = λ t h. ground arith; live = λ t h. ground arith }

abbrev ready_sample : IsReady sample
ready_sample = record { valid = sample-IsValid; numbered = sample-IsNumbered }

create_trade-IsValid_example :
    IsValid (with_session (create_trade surroundings (λ n d. d) request) sample).1
create_trade-IsValid_example =
    create_trade-IsValid surroundings triage_keeps (λ n d. d) request sample (λ n d h. h)
      ready_sample

spot_trade : calculate_trade_type 739735 739737 ≡ ok spot
unfolding calculate_trade_type
spot_trade = refl

request_fits : FitsColumns request
unfolding fits_numeric rounded
request_fits = record {
  lei_fits = omega arith;
  instrument_fits = omega arith;
  currency_fits = omega arith;
  amount_fits = refl;
  rate_fits = refl;
}

insert_new_succeeds_example :
    (t : String) × ((insert_new surroundings
        (λ n d. d)
        32
        request
        (record { work = sample; saved = sample })).0
      ≡ ok (some t))
insert_new_succeeds_example =
    insert_new_succeeds surroundings request (λ n d. d) 32 31 spot
      (record { work = sample; saved = sample }) spot_trade request_fits (λ n d h. h) (omega arith)
      refl (record { at_work = ready_sample; at_saved = ready_sample })

-- The first identifier on the sample, whose rows have no number.
created :
    (insert_new surroundings (λ n d. d) 32 request (record { work = sample; saved = sample })).0
    ≡ ok (some "TRD-001")
unfolding insert_new ◌>>=◌ fits_trade rounded calculate_trade_type max_number row_max trd_id
    trd_number decimal_codes
created = refl

-- The amounts that Numeric(20, 5) takes, and what it makes of a sixth place.
abbrev places : ℕ → ℕ → Decimal
places n k = record { coefficient = pos n; places = k }

largest : fits_numeric 5 (places (10 ^ 15 - 1) 0) ≡ true
unfolding fits_numeric
largest = refl

too_large : fits_numeric 5 (places (10 ^ 15) 0) ≡ false
unfolding fits_numeric
too_large = refl

rounded_up : rounded 5 (places 15 6) ≡ places 2 5
unfolding rounded
rounded_up = refl

rounded_to_zero : rounded 5 (places 4 6) ≡ places 0 5
unfolding rounded
rounded_to_zero = refl

-- A LEI that the column does not take ends the loop at once.
abbrev overlong : TradeCreateRequest
overlong = record request { counterparty_lei = "LEI-0123456789-0123456789-012345" }

refused :
    (insert_new surroundings (λ n d. d) 32 overlong (record { work = sample; saved = sample })).0
    ≡ err database_error
unfolding insert_new ◌>>=◌ fits_trade rounded calculate_trade_type max_number row_max trd_id
    trd_number decimal_codes
refused = refl

allocate_next_trade_id_lem_example :
    (t : String) × (allocate_next_trade_id (record { work = sample; saved = sample })
      ≡ (ok t, record { work = sample; saved = sample }))
    × (any (is_current_of t) sample.trades ≡ false)
allocate_next_trade_id_lem_example =
    allocate_next_trade_id_lem (record { work = sample; saved = sample })

trd_number-trd_id_example : trd_number (trd_id 1000) ≡ some 1000
trd_number-trd_id_example = trd_number-trd_id 1000
