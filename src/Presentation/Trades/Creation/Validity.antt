-- ===== src/Presentation/Trades/Creation/Validity.antt =====
-- `create_trade` of src/presentation/routers/trades.py and the invariant of the database.
use deep_agent_test.Prelude.{ℕ, String, Option, not}
use deep_agent_test.Result.{http}
use deep_agent_test.Infrastructure.Db.{
  Db, Session, Exec, with_session, raise_if, or_raise, attempt, ◌>>=◌, ◌>>◌,
}
use deep_agent_test.Infrastructure.Db.Keeps.{Keeps, On, keeps_rules, on_rules, bind_from}
use deep_agent_test.Infrastructure.Runtime.{Runtime}
use deep_agent_test.Infrastructure.TradeRepository.{get_current}
use deep_agent_test.Infrastructure.RuleEngine.{maybe_run_fo_check}
use deep_agent_test.Infrastructure.Validity.{IsValid}
use deep_agent_test.Infrastructure.Validity.Engine.{TriageKeeps, maybe_run_fo_check-IsValid}
use deep_agent_test.Domain.Entities.{TradeModel}
use deep_agent_test.Presentation.Trades.{to_out}
use deep_agent_test.Presentation.Trades.Creation.{
  TradeCreateRequest, is_accepted, insert_new, create_trade,
}
use deep_agent_test.Presentation.Trades.Creation.Insertion.{IsReady, insert_new-IsReady}

ready-IsValid : (s : Session) → On IsReady s → On IsValid s
ready-IsValid s h = record { at_work = h.at_work.valid; at_saved = h.at_saved.valid }

module _ (rt : Runtime) (k : TriageKeeps rt IsValid) where
  -- What follows the loop.
  answer : Option String → Exec (TradeModel × Option String)
  answer assigned = do
    trade_id ← or_raise assigned (http 503)
    attempt (maybe_run_fo_check rt trade_id)
    found ← get_current trade_id
    row ← or_raise found (http 500)
    to_out row

  answer-IsValid : (assigned : Option String) → Keeps (On IsValid) (answer assigned)
  unfolding answer
  answer-IsValid assigned = search (keeps_rules, on_rules, maybe_run_fo_check-IsValid, k) depth 30

  -- If what the other sessions commit meanwhile and the automatic triage keep the database valid,
  -- with the versions of each trade numbered from 1 and one of them current, then after the
  -- request to create a trade, however it ends, the database is valid: in particular no identifier
  -- has two current rows.
  pub create_trade-IsValid :
      (others : ℕ → Db → Db) (body : TradeCreateRequest) (db : Db)
      → ((n : ℕ) (d : Db) → IsReady d → IsReady (others n d))
      → IsReady db
      → IsValid (with_session (create_trade rt others body) db).1
  unfolding create_trade answer
  create_trade-IsValid others body db fair h =
      (bind_from (On IsReady) (raise_if (not (is_accepted body)) (http 422)) _ start
        (accepted.at start (record { at_work = h; at_saved = h })) ready-IsValid
        λ _ s r.
          bind_from (On IsReady) (insert_new rt others 32 body) answer s
            ((insert_new-IsReady rt body others 32 fair).at s r) ready-IsValid
            λ assigned t q. (answer-IsValid assigned).at t (ready-IsValid t q)).at_saved
    where
      start : Session
      start = record { work = db; saved = db }

      accepted : Keeps (On IsReady) (raise_if (not (is_accepted body)) (http 422))
      accepted = search keeps_rules
