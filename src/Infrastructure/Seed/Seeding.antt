-- ===== src/Infrastructure/Seed/Seeding.antt =====
-- The whole seeding of src/infrastructure/seed.py and the invariant of the database.
use deep_agent_test.Prelude.{◌≡◌, refl, String, true, not, List, [], ◌∷◌, any, arith}
use deep_agent_test.Domain.Entities.{TradeModel, SettlementInstructionModel}
use deep_agent_test.Domain.Triage.{ReferenceDataModel}
use deep_agent_test.Infrastructure.Db.{Db, with_session, when, gets, ◌>>=◌}
use deep_agent_test.Infrastructure.Db.Keeps.{
  Keeps, Keeps-bind, Keeps-attempt, On, keeps_rules, on_rules, Keeps-with_session,
}
use deep_agent_test.Infrastructure.RuleEngine.{is_ssi, run_fo_check}
use deep_agent_test.Infrastructure.Runtime.{Runtime}
use deep_agent_test.Infrastructure.Seed.{
  upsert_counterparties, upsert_reference_data, add_ssi, add_ssis, upsert_ssis,
  upsert_trades_and_exceptions, upsert_app_settings, check_all, maybe_auto_run_fo_check,
  seed_database, reset_and_seed,
}
use deep_agent_test.Infrastructure.Seed.Trades.{seed_trades}
use deep_agent_test.Infrastructure.Seed.Validity.{Agrees-start, are_distinct, add_all-IsValid}
use deep_agent_test.Infrastructure.Tools.Keeping.{counterparties-IsValid, new_ssi-IsValid}
use deep_agent_test.Infrastructure.TradeRepository.Listing.{list_rows}
use deep_agent_test.Infrastructure.Validity.{IsValid}
use deep_agent_test.Infrastructure.Validity.Engine.{
  TriageKeeps, Keeps-is_auto, run_fo_check-IsValid,
}

reference_data-IsValid :
    (db : Db) (rows : List ReferenceDataModel)
    → IsValid db
    → IsValid (record db { reference_data = rows })
reference_data-IsValid db rows h = record {
  trades_consistent = h.trades_consistent;
  one_pending = h.one_pending;
  ids_unique = h.ids_unique;
  ids_below = h.ids_below;
}

settings-IsValid :
    (db : Db) (rows : List (String × String)) → IsValid db → IsValid (record db { settings = rows })
settings-IsValid db rows h = record {
  trades_consistent = h.trades_consistent;
  one_pending = h.one_pending;
  ids_unique = h.ids_unique;
  ids_below = h.ids_below;
}

emptied :
    (db : Db)
    → IsValid db
    → IsValid (record db {
      exceptions = [];
      ssis = [];
      reference_data = [];
      counterparties = [];
      trades = [];
      settings = [];
    })
emptied db h = record {
  trades_consistent = record { versions = λ t v. omega arith; current = λ t. omega arith };
  one_pending = h.one_pending;
  ids_unique = h.ids_unique;
  ids_below = h.ids_below;
}

distinct_seeds : are_distinct seed_trades ≡ true
unfolding seed_trades
distinct_seeds = refl

module _ (rt : Runtime) where
  add_ssi-IsValid : (row : SettlementInstructionModel) → Keeps (On IsValid) (add_ssi rt row)
  add_ssi-IsValid row = search (on_rules, new_ssi-IsValid)

  add_ssis-IsValid :
      (existing rows : List SettlementInstructionModel)
      → Keeps (On IsValid) (add_ssis rt existing rows)
  unfolding add_ssis
  add_ssis-IsValid existing [] = search keeps_rules
  add_ssis-IsValid existing (row ∷ rows) =
      let first : Keeps (On IsValid) (
          when (not (any (is_ssi row.lei row.currency row.is_external) existing))
            (add_ssi rt row)) =
        search (keeps_rules, add_ssi-IsValid) in
      Keeps-bind _ _ first (λ _. add_ssis-IsValid existing rows)

  upsert_counterparties-IsValid : Keeps (On IsValid) (upsert_counterparties rt)
  unfolding upsert_counterparties
  upsert_counterparties-IsValid = search (keeps_rules, on_rules, counterparties-IsValid)

  upsert_reference_data-IsValid : Keeps (On IsValid) upsert_reference_data
  unfolding upsert_reference_data
  upsert_reference_data-IsValid = search (keeps_rules, on_rules, reference_data-IsValid)

  upsert_app_settings-IsValid : Keeps (On IsValid) upsert_app_settings
  unfolding upsert_app_settings
  upsert_app_settings-IsValid = search (keeps_rules, on_rules, settings-IsValid)

  upsert_ssis-IsValid : Keeps (On IsValid) (upsert_ssis rt)
  unfolding upsert_ssis
  upsert_ssis-IsValid = search (keeps_rules, add_ssis-IsValid)

  upsert_trades-IsValid : Keeps (On IsValid) (upsert_trades_and_exceptions rt)
  unfolding upsert_trades_and_exceptions gets ◌>>=◌
  upsert_trades-IsValid = record {
    at = λ s h.
        add_all-IsValid rt s.work.trades s.work.exceptions seed_trades s distinct_seeds
          (record { valid = h; agrees = Agrees-start s.work.trades seed_trades });
  }

module _ (rt : Runtime) (k : TriageKeeps rt IsValid) where
  check_all-IsValid : (trades : List TradeModel) → Keeps (On IsValid) (check_all rt trades)
  unfolding check_all
  check_all-IsValid [] = search keeps_rules
  check_all-IsValid (trade ∷ trades) =
      Keeps-bind _ _ (Keeps-attempt (run_fo_check rt trade.trade_id) (run_fo_check-IsValid rt k _))
        λ _. check_all-IsValid trades

  maybe_auto-IsValid : Keeps (On IsValid) (maybe_auto_run_fo_check rt)
  unfolding maybe_auto_run_fo_check list_rows
  maybe_auto-IsValid = search (keeps_rules, Keeps-is_auto, check_all-IsValid)

  seed_database-IsValid : Keeps (On IsValid) (seed_database rt)
  unfolding seed_database
  seed_database-IsValid =
      search
        (
          keeps_rules, on_rules, upsert_counterparties-IsValid, upsert_reference_data-IsValid,
          upsert_ssis-IsValid, upsert_trades-IsValid, upsert_app_settings-IsValid,
          maybe_auto-IsValid,
        )
        depth 30

  reset_and_seed-IsValid : Keeps (On IsValid) (reset_and_seed rt)
  unfolding reset_and_seed
  reset_and_seed-IsValid = search (keeps_rules, on_rules, emptied, seed_database-IsValid) depth 30

  -- If the automatic triage keeps a database valid, then after the seeding of a valid database, and
  -- after its reset, however they end, it is valid: in particular no trade has two current
  -- versions.
  pub seeding-IsValid :
      (db : Db)
      → IsValid db
      → IsValid (with_session (seed_database rt) db).1
        × IsValid (with_session (reset_and_seed rt) db).1
  seeding-IsValid db h = (
    Keeps-with_session (seed_database rt) db seed_database-IsValid h,
    Keeps-with_session (reset_and_seed rt) db reset_and_seed-IsValid h,
  )
