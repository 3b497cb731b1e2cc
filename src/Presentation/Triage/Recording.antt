-- ===== src/Presentation/Triage/Recording.antt =====
-- The results that the handlers of src/presentation/routers/bo_triage.py and fo_triage.py keep.
use deep_agent_test.Prelude.{◌+◌, ◌≡◌, refl, ap, ◌∙◌, String, false, some, text_eq, if◌then◌else◌}
use deep_agent_test.Result.{Result, ok}
use deep_agent_test.Domain.Triage.{TriageResult}
use deep_agent_test.Infrastructure.Db.{
  Db, Session, with_session, pure, gets, modify, commit, attempt, ◌>>=◌,
}
use deep_agent_test.Infrastructure.Db.Keeps.{with_session_run, bind_ok}
use deep_agent_test.Infrastructure.Runtime.{Runtime}
use deep_agent_test.Infrastructure.TriageRepository.{existing_of, put_run, save}
use deep_agent_test.Infrastructure.TriageRepository.Laws.{view, kept, view-put_run}
use deep_agent_test.Presentation.Triage.{
  own_sessions, save_triage_result, start_triage_run, resume_triage_run, stop_iteration_404,
}

module _ (rt : Runtime) (use_case : Db → Result TriageResult × Db) (db after : Db)
    (result : TriageResult) (ran : use_case db ≡ (ok result, after)) where
  abbrev start : Session
  start = record { work = db; saved = db }

  abbrev triaged : Session
  triaged = record { work = after; saved = after }

  abbrev recorded : Db
  recorded = record after {
    runs = put_run rt after.next_id result (existing_of result.run_id after.runs) after.runs;
    next_id = after.next_id + 1;
  }

  saving :
      save_triage_result rt result triaged ≡ (ok tt, record { work = recorded; saved = recorded })
  unfolding save_triage_result save pure gets modify commit attempt ◌>>=◌
  saving = refl

  abbrev reread : Result TriageResult × Db → Result TriageResult × Session
  reread x = (x.0, record { work = x.1; saved = x.1 })

  own : own_sessions use_case start ≡ (ok result, triaged)
  own = ap reread ran

  started : with_session (start_triage_run rt use_case) db ≡ (ok result, recorded)
  unfolding start_triage_run pure
  started =
      with_session_run (start_triage_run rt use_case) db (ok result)
        (record { work = recorded; saved = recorded })
        (bind_ok (own_sessions use_case) _ start result triaged own
          ∙ bind_ok (save_triage_result rt result) _ triaged tt
              (record { work = recorded; saved = recorded }) saving)

  resumed : with_session (resume_triage_run rt use_case) db ≡ (ok result, recorded)
  unfolding resume_triage_run pure
  resumed =
      with_session_run (resume_triage_run rt use_case) db (ok result)
        (record { work = recorded; saved = recorded })
        (bind_ok (stop_iteration_404 (own_sessions use_case)) _ start result triaged caught
          ∙ bind_ok (save_triage_result rt result) _ triaged tt
              (record { work = recorded; saved = recorded }) saving)
    where
      caught : stop_iteration_404 (own_sessions use_case) start ≡ (ok result, triaged)
      caught = ap (λ x. stop_iteration_404 (λ _. reread x) start) ran

  -- If the use case returns a result with the identifier of a run that is not empty, then the
  -- request to start a triage and the request to resume one return that result, and afterwards the
  -- database has for this run the result without the kind of its pending action (and, where the
  -- run was there already, with the trade and the agent that it had), and for every other run what
  -- the use case left.
  pub triage_recorded :
      (id q : String)
      → result.run_id ≡ some id
      → text_eq id "" ≡ false
      → (with_session (start_triage_run rt use_case) db ≡ (ok result, recorded))
        × (with_session (resume_triage_run rt use_case) db ≡ (ok result, recorded))
        × (view recorded.runs q
            ≡ (if text_eq id q then some (kept result (view after.runs id)) else view after.runs q))
  triage_recorded id q named given =
      (started, resumed, view-put_run rt after.next_id result id after.runs named q given)
