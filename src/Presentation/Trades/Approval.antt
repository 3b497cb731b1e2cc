-- ===== src/Presentation/Trades/Approval.antt =====
-- The operator's approval of src/presentation/routers/trades.py.
use deep_agent_test.Prelude.{
  ◌≡◌, ◌≢◌, refl, sym, ◌∙◌, inl, inr, Option-cases, ap, String, Option, none, some, find_first,
  update_first,
}
use mathlib.Core.Path.{subst}
use deep_agent_test.Result.{Result, ok, err, http}
use deep_agent_test.Domain.Entities.{TradeModel, TradeWorkflowStatus}
use deep_agent_test.Infrastructure.Db.{
  Db, Session, with_session, or_raise, raise, pure, gets, commit, ◌>>=◌,
}
use deep_agent_test.Infrastructure.Db.Keeps.{bind_ok, bind_err, gets_step}
use deep_agent_test.Infrastructure.Runtime.{Runtime}
use deep_agent_test.Infrastructure.TradeRepository.{
  is_current_of, get_current, with_status, update_workflow_status,
}
use deep_agent_test.Infrastructure.RuleEngine.Storing.{update_workflow_status_found, written}
use deep_agent_test.Presentation.Trades.{next_status, to_out, operator_approve_trade}

-- The two moves that the operator's approval makes.
pub data IsUserMove (status next : TradeWorkflowStatus) : Type 0 where
  from_fo :
      status ≡ TradeWorkflowStatus.fo_user_to_validate
      → next ≡ TradeWorkflowStatus.fo_validated
      → IsUserMove status next
  from_bo :
      status ≡ TradeWorkflowStatus.bo_user_to_validate
      → next ≡ TradeWorkflowStatus.bo_validated
      → IsUserMove status next

-- The answer of the operator's approval of a trade, with the database that it leaves. An unknown
-- trade gives 404 and a trade that waits for no user 409, with nothing changed. A trade that waits
-- for a user moves on, FoUserToValidate to FoValidated and BoUserToValidate to BoValidated.
pub data Approval (rt : Runtime) (t : String) (db : Db)
    : Result (TradeModel × Option String) × Db → Type 0 where
  unknown : find_first (is_current_of t) db.trades ≡ none → Approval rt t db (err (http 404), db)
  not_due :
      (row : TradeModel)
      → find_first (is_current_of t) db.trades ≡ some row
      → row.workflow_status ≢ TradeWorkflowStatus.fo_user_to_validate
      → row.workflow_status ≢ TradeWorkflowStatus.bo_user_to_validate
      → Approval rt t db (err (http 409), db)
  moved :
      (row : TradeModel) (status : TradeWorkflowStatus) (name : Option String)
      → find_first (is_current_of t) db.trades ≡ some row
      → IsUserMove row.workflow_status status
      → Approval rt t db (
        ok (record row { workflow_status = status; updated_at = rt.now }, name),
        record db {
          trades =
              update_first
                (is_current_of t)
                (λ r. record r { workflow_status = status; updated_at = rt.now })
                db.trades;
        },
      )

moved_from :
    (status next : TradeWorkflowStatus) → next_status status ≡ some next → IsUserMove status next
moved_from TradeWorkflowStatus.fo_user_to_validate next e = from_fo refl cc
moved_from TradeWorkflowStatus.bo_user_to_validate next e = from_bo refl cc
moved_from _ next e = cc

module _ (rt : Runtime) (t : String) (db : Db) where
  abbrev opened : Session
  opened = record { work = db; saved = db }

  closed :
      (a : Result (TradeModel × Option String)) (s : Session)
      → operator_approve_trade rt t opened ≡ (a, s)
      → Approval rt t db (a, s.saved)
      → Approval rt t db (with_session (operator_approve_trade rt t) db)
  closed a s e h =
      subst
        (λ (x : Result (TradeModel × Option String) × Session). Approval rt t db (x.0, x.1.saved))
        (sym e) h

  run_unknown :
      find_first (is_current_of t) db.trades ≡ none
      → operator_approve_trade rt t opened ≡ (err (http 404), opened)
  unfolding operator_approve_trade raise
  run_unknown e =
      bind_ok (get_current t) _ opened none opened (gets_step _ opened none e)
      ∙ bind_err (or_raise none (http 404)) _ opened (http 404) opened refl

  run_not_due :
      (row : TradeModel)
      → find_first (is_current_of t) db.trades ≡ some row
      → next_status row.workflow_status ≡ none
      → operator_approve_trade rt t opened ≡ (err (http 409), opened)
  unfolding operator_approve_trade raise pure
  run_not_due row e n =
      bind_ok (get_current t) _ opened (some row) opened (gets_step _ opened (some row) e)
      ∙ bind_ok (or_raise (some row) (http 404)) _ opened row opened refl
      ∙ bind_err (or_raise (next_status row.workflow_status) (http 409)) _ opened (http 409) opened
          (ap (λ o. or_raise o (http 409) opened) n)

  -- The rest of the handler after the update.
  committed_out :
      (row : TradeModel) (s : Session)
      → (name : Option String) × (◌>>=◌ commit (λ _. to_out row) s
          ≡ (ok (row, name), record s { saved = s.work }))
  unfolding ◌>>=◌ commit gets pure
  committed_out row s = (_, refl)

  run_moved :
      (row : TradeModel) (status : TradeWorkflowStatus)
      → find_first (is_current_of t) db.trades ≡ some row
      → next_status row.workflow_status ≡ some status
      → operator_approve_trade rt t opened
        ≡ ◌>>=◌ commit
            (λ _. to_out (with_status rt status (λ r. r) row))
            (written rt t (with_status rt status (λ r. r)) opened)
  unfolding operator_approve_trade pure
  run_moved row status e n =
      bind_ok (get_current t) _ opened (some row) opened (gets_step _ opened (some row) e)
      ∙ bind_ok (or_raise (some row) (http 404)) _ opened row opened refl
      ∙ bind_ok (or_raise (next_status row.workflow_status) (http 409)) _ opened status opened
          (ap (λ o. or_raise o (http 409) opened) n)
      ∙ bind_ok (update_workflow_status rt t status (λ r. r)) _ opened _ _
          (update_workflow_status_found rt t status (λ r. r) row opened e)
      ∙ bind_ok (or_raise (some (with_status rt status (λ r. r) row)) (http 404)) _ _
          (with_status rt status (λ r. r) row) _ refl

  -- The operator's approval of any trade answers 404 for an unknown trade and 409 for one that
  -- is neither in FoUserToValidate nor in BoUserToValidate, with nothing changed, and else moves the
  -- current version from FoUserToValidate to FoValidated or from BoUserToValidate to BoValidated,
  -- stamped with the time of the request, commits that and returns it.
  pub operator_approve_lem : Approval rt t db (with_session (operator_approve_trade rt t) db)
  operator_approve_lem = elim (Option-cases (find_first (is_current_of t) db.trades)) [
    | inl e ↦ closed (err (http 404)) opened (run_unknown e) (Approval.unknown e)
    | inr (row, e) ↦ elim (Option-cases (next_status row.workflow_status)) [
      | inl n ↦
          closed (err (http 409)) opened (run_not_due row e n)
            (Approval.not_due row e (λ w. cc (ap next_status w, n)) (λ w. cc (ap next_status w, n)))
      | inr (status, n) ↦
          let out =
            committed_out (with_status rt status (λ r. r) row)
              (written rt t (with_status rt status (λ r. r)) opened) in
          closed (ok (with_status rt status (λ r. r) row, out.0)) _
            (run_moved row status e n ∙ out.1)
            (Approval.moved row status out.0 e (moved_from row.workflow_status status n))
    ]
  ]
