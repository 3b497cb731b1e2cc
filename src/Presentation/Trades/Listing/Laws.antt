-- ===== src/Presentation/Trades/Listing/Laws.antt =====
-- What `list_trades` of src/presentation/routers/trades.py returns.
use deep_agent_test.Prelude.{
  ℕ, ◌≤◌, ◌≡◌, refl, ap, ◌∙◌, String, true, not, ◌&&◌, Option, List, [], ◌∷◌, map, arith, count_if,
  count_if-map, count_if_mono, text_eq,
}
use deep_agent_test.Result.{ok}
use deep_agent_test.Domain.Entities.{TradeModel}
use deep_agent_test.Infrastructure.Db.{Db, Session, with_session, raise_if, gets, pure}
use deep_agent_test.Infrastructure.Db.Keeps.{with_session_run, bind_ok, raise_if_pass}
use deep_agent_test.Infrastructure.Consistency.{IsConsistent}
use deep_agent_test.Infrastructure.Query.{page}
use deep_agent_test.Infrastructure.Query.Laws.{count_if-page, page_lem}
use deep_agent_test.Infrastructure.TradeRepository.{is_current_of}
use deep_agent_test.Infrastructure.TradeRepository.Listing.{
  TradeFilters, is_listed, later_traded, list_rows,
}
use deep_agent_test.Presentation.Exceptions.{is_page_size}
use deep_agent_test.Presentation.Trades.Listing.{with_name, list_trades}

module _ (filters : TradeFilters) (limit offset : ℕ) (db : Db) where
  abbrev start : Session
  start = record { work = db; saved = db }

  abbrev found : List TradeModel × ℕ
  found = page (is_listed filters) later_traded limit offset db.trades

  listed :
      is_page_size limit ≡ true
      → with_session (list_trades filters limit offset) db
        ≡ (ok (map (with_name db.counterparties) found.0, found.1), db)
  unfolding list_trades list_rows gets pure
  listed h =
      with_session_run (list_trades filters limit offset) db
        (ok (map (with_name db.counterparties) found.0, found.1)) start
        (bind_ok (raise_if (not (is_page_size limit)) _) _ start tt start
            (raise_if_pass (not (is_page_size limit)) _ start (ap not h))
          ∙ bind_ok (list_rows filters limit offset) _ start found start refl
          ∙ bind_ok (gets (λ d. d.counterparties)) _ start db.counterparties start refl)

  listed_once :
      (t : String) → IsConsistent db.trades → count_if (λ row. text_eq row.trade_id t) found.0 ≤ 1
  unfolding is_listed
  listed_once t h = omega (
    arith,
    count_if-page (λ row. text_eq row.trade_id t) (is_listed filters) later_traded limit offset
        db.trades,
    count_if_mono (λ row. is_listed filters row && text_eq row.trade_id t) (is_current_of t)
        db.trades (λ row e. ground (arith, e)),
    h.current t,
  )

  none_unlisted :
      (rows : List TradeModel)
      → count_if (λ row. is_listed filters row && not (is_listed filters row)) rows ≡ 0
  none_unlisted [] = refl
  none_unlisted (row ∷ rows) = ground (arith, none_unlisted rows)

  -- With a page size from 1 to 100, and with the versions of each trade numbered apart and at most
  -- one of them current, the list of trades is returned and changes nothing; it holds each trade at
  -- most once and no row that fails the filters, of which being the current version is one; and
  -- the total is the number of the rows that pass them.
  pub list_trades_lem :
      (t : String)
      → is_page_size limit ≡ true
      → IsConsistent db.trades
      → (items : List (TradeModel × Option String)) × (total : ℕ) × (with_session
            (list_trades filters limit offset)
            db
          ≡ (ok (items, total), db))
        × (count_if (λ item. text_eq item.0.trade_id t) items ≤ 1)
        × (count_if (λ item. not (is_listed filters item.0)) items ≡ 0)
        × (total ≡ count_if (is_listed filters) db.trades)
  list_trades_lem t h consistent =
      let named = with_name db.counterparties in
      (
        map named found.0,
        found.1,
        listed h,
        omega (
          arith,
          count_if-map (λ item. text_eq item.0.trade_id t) named found.0,
          listed_once t consistent,
        ),
        omega (
          arith,
          count_if-map (λ item. not (is_listed filters item.0)) named found.0,
          count_if-page (λ row. not (is_listed filters row)) (is_listed filters) later_traded limit
              offset db.trades,
          none_unlisted db.trades,
        ),
        (page_lem (is_listed filters) (is_listed filters) later_traded limit 0 offset db.trades).1,
      )
