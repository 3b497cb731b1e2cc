-- ===== src/Infrastructure/Tools/Feedback/Told.antt =====
-- What one agent leaves on a trade by src/infrastructure/tools.py and the other one reads there.
use deep_agent_test.Prelude.{
  ◌+◌, ◌≡◌, refl, ap, ◌∙◌, String, true, false, Option, some, find_first, update_first,
  find_first-update_first, text_eq,
}
use deep_agent_test.Result.{ok}
use deep_agent_test.Domain.Entities.{TradeModel, TradeWorkflowStatus}
use deep_agent_test.Domain.Json.{Members, member, no_members, str, num, bool}
use deep_agent_test.Domain.Text.{codes}
use deep_agent_test.Infrastructure.Db.{Db, Session, Exec, with_session, pure, gets, commit, ◌>>=◌}
use deep_agent_test.Infrastructure.Db.Keeps.{with_session_run, bind_ok, gets_step}
use deep_agent_test.Infrastructure.Runtime.{Runtime}
use deep_agent_test.Infrastructure.TradeRepository.{
  is_current_of, get_current, update_workflow_status,
}
use deep_agent_test.Infrastructure.RuleEngine.Storing.{written, update_workflow_status_found}
use deep_agent_test.Infrastructure.Tools.{
  ToolResult, send_back_to_fo, provide_explanation, with_sendback, with_explanation, sent_back,
  explained,
}
use deep_agent_test.Infrastructure.Tools.Reading.{Format, answer_for, object}
use deep_agent_test.Infrastructure.Tools.Feedback.{
  unknown_trade, reason_found, explanation_found, sendback_reason_of, explanation_of,
  get_bo_sendback_reason, get_fo_explanation,
}

module _ (rt : Runtime) (f : Format) (t words : String) (db : Db) (trade : TradeModel)
    (found : find_first (is_current_of t) db.trades ≡ some trade)
    (given_words : text_eq words "" ≡ false) where
  abbrev start : Session
  start = record { work = db; saved = db }

  -- A write to the current version, which the next session then finds.
  abbrev after : (TradeModel → TradeModel) → Db
  after change = record db { trades = update_first (is_current_of t) change db.trades }

  abbrev sent_back_row : TradeModel → TradeModel
  sent_back_row row = record row {
    workflow_status = TradeWorkflowStatus.fo_agent_to_check;
    bo_sendback_reason = some words;
    sendback_count = trade.sendback_count + 1;
    updated_at = rt.now;
  }

  abbrev explained_row : TradeModel → TradeModel
  explained_row row = record row {
    workflow_status = TradeWorkflowStatus.fo_validated;
    fo_explanation = some words;
    updated_at = rt.now;
  }

  -- What the two reading tools return, key by key.
  abbrev told_reason : Members
  told_reason = member (codes "trade_id") (str (codes t)) (
      member (codes "found") (bool true) (
        member (codes "bo_sendback_reason") (str (codes words))
          (member (codes "sendback_count") (num (f.number (trade.sendback_count + 1))) no_members)))

  abbrev told_explanation : Members
  told_explanation = member (codes "trade_id") (str (codes t)) (
      member (codes "found") (bool true)
        (member (codes "fo_explanation") (str (codes words)) no_members))

  finish :
      (result : ToolResult) (s : Session)
      → ◌>>=◌ commit (λ _. pure result) s ≡ (ok result, record s { saved = s.work })
  unfolding ◌>>=◌ commit pure
  finish result s = refl

  sent :
      with_session (send_back_to_fo rt t words) db
      ≡ (ok (sent_back t (trade.sendback_count + 1) words), after sent_back_row)
  unfolding send_back_to_fo
  sent =
      with_session_run (send_back_to_fo rt t words) db
        (ok (sent_back t (trade.sendback_count + 1) words))
        (record { work = after sent_back_row; saved = after sent_back_row })
        (bind_ok (get_current t) _ start (some trade) start (gets_step _ start (some trade) found)
          ∙ bind_ok (update_workflow_status rt t TradeWorkflowStatus.fo_agent_to_check _) _ start _
              _
              (update_workflow_status_found rt t TradeWorkflowStatus.fo_agent_to_check
                (with_sendback rt words (trade.sendback_count + 1)) trade start found)
          ∙ finish (sent_back t (trade.sendback_count + 1) words)
              (written rt t sent_back_row start))

  told :
      with_session (provide_explanation rt t words) db
      ≡ (ok (explained t words), after explained_row)
  unfolding provide_explanation
  told =
      with_session_run (provide_explanation rt t words) db (ok (explained t words))
        (record { work = after explained_row; saved = after explained_row })
        (bind_ok (update_workflow_status rt t TradeWorkflowStatus.fo_validated _) _ start _ _ (
            update_workflow_status_found rt t TradeWorkflowStatus.fo_validated
              (with_explanation rt words) trade start found)
          ∙ finish (explained t words) (written rt t explained_row start))

  -- A tool that reads the current version.
  read :
      (tool : Exec Members) (missing : Members) (answer_of : TradeModel → Members)
      (change : TradeModel → TradeModel)
      → ((r : TradeModel) → is_current_of t (change r) ≡ is_current_of t r)
      → tool ≡ (◌>>=◌ (get_current t) λ row. pure (answer_for missing answer_of row))
      → (with_session tool (after change)).0 ≡ ok (answer_of (change trade))
  unfolding ◌>>=◌ gets pure
  read tool missing answer_of change keeps e =
      ap (λ (m : Exec Members). (with_session m (after change)).0) e
      ∙ ap (λ (row : Option TradeModel). ok (answer_for missing answer_of row))
          (find_first-update_first (is_current_of t) change db.trades keeps found)

  -- Of a trade with a current version, and for a reason or an explanation that is not empty: when
  -- the back office sends the trade back, its current version waits in FoAgentToCheck with that
  -- reason and one more in the count, and the front office then reads the object with the trade's
  -- identifier, `found` true, that reason and that count; when the front office explains the trade,
  -- its current version is FoValidated with that explanation, and the back office then reads the
  -- object with the trade's identifier, `found` true and that explanation.
  pub feedback_told :
      (with_session (send_back_to_fo rt t words) db
        ≡ (ok (sent_back t (trade.sendback_count + 1) words), after sent_back_row))
      × ((with_session (get_bo_sendback_reason f t) (after sent_back_row)).0 ≡ ok told_reason)
      × (with_session (provide_explanation rt t words) db
          ≡ (ok (explained t words), after explained_row))
      × ((with_session (get_fo_explanation t) (after explained_row)).0 ≡ ok told_explanation)
  unfolding get_bo_sendback_reason get_fo_explanation sendback_reason_of explanation_of reason_found
      explanation_found object
  feedback_told = (
    sent,
    read (get_bo_sendback_reason f t) (unknown_trade t) (sendback_reason_of f t) sent_back_row
          (λ r. refl) refl
        ∙ rw given_words refl,
    told,
    read (get_fo_explanation t) (unknown_trade t) (explanation_of t) explained_row (λ r. refl) refl
        ∙ rw given_words refl,
  )
