-- ===== src/Presentation/TradeEvents/Activation.antt =====
-- What an approved amendment of src/presentation/routers/trade_events.py makes of the trade.
use deep_agent_test.Prelude.{
  ℕ, ◌≡◌, refl, ◌∙◌, ap, false, String, some, List, [], ◌∷◌, map, find_first, update_first, text_eq,
  eq_iff, arith, true,
}
use deep_agent_test.Domain.Entities.{TradeModel, TradeWorkflowStatus, TradeEventModel, amend}
use deep_agent_test.Infrastructure.Db.{Session, gets, modify, ◌>>=◌}
use deep_agent_test.Infrastructure.Runtime.{Runtime}
use deep_agent_test.Infrastructure.TradeRepository.{
  is_current_of, has_version, activate_row, activate_version,
}
use deep_agent_test.Infrastructure.EventRepository.{update_status}
use deep_agent_test.Presentation.TradeEvents.{approve, set_initial, initial_row}

module _ (rt : Runtime) (t : String) (v : ℕ) where
  -- The rows after the activation and the assignment of the status.
  abbrev pub activated : List TradeModel → List TradeModel
  activated rows = update_first (has_version t v) (initial_row rt) (map (activate_row rt t v) rows)

  found_after :
      (rows : List TradeModel) (row : TradeModel)
      → find_first (has_version t v) rows ≡ some row
      → find_first (has_version t v) (map (activate_row rt t v) rows)
        ≡ some (activate_row rt t v row)
  found_after [] row e = cc
  found_after (r ∷ rows) row e = ground (arith, found_after rows row)

  current_after :
      (rows : List TradeModel) (row : TradeModel)
      → find_first (has_version t v) rows ≡ some row
      → find_first (is_current_of t) (activated rows)
        ≡ some (record row {
          workflow_status = TradeWorkflowStatus.initial;
          is_current = true;
          updated_at = rt.now;
        })
  current_after [] row e = cc
  current_after (r ∷ rows) row e = ground (arith, current_after rows row)

  -- The rows of another trade, which neither step touches.
  activate_others :
      (u : String) (rows : List TradeModel)
      → text_eq t u ≡ false
      → find_first (is_current_of u) (map (activate_row rt t v) rows)
        ≡ find_first (is_current_of u) rows
  activate_others u [] ne = refl
  activate_others u (r ∷ rows) ne =
      ground
        (arith, activate_others u rows ne, eq_iff r.trade_id t, eq_iff r.trade_id u, eq_iff t u)

  initial_others :
      (u : String) (rows : List TradeModel)
      → text_eq t u ≡ false
      → find_first (is_current_of u) (update_first (has_version t v) (initial_row rt) rows)
        ≡ find_first (is_current_of u) rows
  initial_others u [] ne = refl
  initial_others u (r ∷ rows) ne =
      ground (arith, initial_others u rows ne, eq_iff r.trade_id t, eq_iff r.trade_id u, eq_iff t u)

module _ (rt : Runtime) where
  approve_rows :
      (event : TradeEventModel) (row : TradeModel) (s : Session)
      → find_first (has_version event.trade_id event.to_version) s.work.trades ≡ some row
      → (approve rt event amend s).1.work.trades
        ≡ activated rt event.trade_id event.to_version s.work.trades
  unfolding approve set_initial update_status activate_version ◌>>=◌ modify gets
  approve_rows event row s e =
      rw (found_after rt event.trade_id event.to_version s.work.trades row e) refl

  -- Where the version that an AMEND leads to exists, its approval by the Back Office makes the
  -- trade read by that version, marked as current, in the status Initial, stamped with the time of
  -- the request and else unchanged, and leaves the current version of any other trade as it was.
  pub amend_activates :
      (event : TradeEventModel) (row : TradeModel) (s : Session) (u : String)
      → find_first (has_version event.trade_id event.to_version) s.work.trades ≡ some row
      → text_eq event.trade_id u ≡ false
      → (find_first (is_current_of event.trade_id) (approve rt event amend s).1.work.trades
          ≡ some (record row {
            workflow_status = TradeWorkflowStatus.initial;
            is_current = true;
            updated_at = rt.now;
          }))
        × (find_first (is_current_of u) (approve rt event amend s).1.work.trades
            ≡ find_first (is_current_of u) s.work.trades)
  amend_activates event row s u e ne =
      let rows = approve_rows event row s e in
      let t = event.trade_id in
      let v = event.to_version in
      (
        ap (find_first (is_current_of t)) rows ∙ current_after rt t v s.work.trades row e,
        ap (find_first (is_current_of u)) rows
            ∙ initial_others rt t v u (map (activate_row rt t v) s.work.trades) ne
            ∙ activate_others rt t v u s.work.trades ne,
      )
