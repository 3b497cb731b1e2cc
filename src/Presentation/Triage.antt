-- ===== src/Presentation/Triage.antt =====
-- src/presentation/routers/bo_triage.py and fo_triage.py, which differ in the use case that they
-- call, and triage_history.py. The logs of the costs, which a run without costs has none of, are
-- left out.
pub mod Recording
use deep_agent_test.Prelude.{ℕ, Bool, List, length}
use deep_agent_test.Result.{Error, Result, ok, err, http, stop_iteration}
use deep_agent_test.Domain.Triage.{TriageResult}
use deep_agent_test.Infrastructure.Db.{Db, Exec, attempt, pure, ◌>>=◌, ◌>>◌}
use deep_agent_test.Infrastructure.Runtime.{Runtime}
use deep_agent_test.Infrastructure.TriageRepository.{save, list_recent}

-- The use case works on the committed database in sessions of its own; afterwards the session of
-- the request reads it anew.
abbrev pub own_sessions : {A : Type 0} → (Db → Result A × Db) → Exec A
own_sessions run s = ((run s.saved).0, record { work = (run s.saved).1; saved = (run s.saved).1 })

abbrev not_found : Error → Error
not_found stop_iteration = http 404
not_found e = e

abbrev stop_iteration_404 : {A : Type 0} → Exec A → Exec A
stop_iteration_404 m s = elim (m s).0 [
  | ok a ↦ (ok a, (m s).1)
  | err e ↦ (err (not_found e), (m s).1)
]

module _ (rt : Runtime) where
  unfoldable pub save_triage_result : TriageResult → Exec (Unit {0})
  unfolding save
  save_triage_result result = attempt (save rt result)

  -- The argument is the use case's `start(trade_id, error_context)`.
  unfoldable pub start_triage_run : (Db → Result TriageResult × Db) → Exec TriageResult
  unfolding save_triage_result
  start_triage_run start = do result ← own_sessions start; save_triage_result result; pure result

  -- The argument is the use case's `resume(run_id, approved)`.
  unfoldable pub resume_triage_run : (Db → Result TriageResult × Db) → Exec TriageResult
  unfolding save_triage_result
  resume_triage_run resume = do
    result ← stop_iteration_404 (own_sessions resume)
    save_triage_result result
    pure result

unfoldable pub get_triage_history : ℕ → Exec (List TriageResult × ℕ)
get_triage_history limit = do results ← list_recent limit; pure (results, length results)
