-- ===== src/Infrastructure/TriageRepository.antt =====
-- src/infrastructure/db/repository.py: the results of triages and their rows.
pub mod Laws
use deep_agent_test.Prelude.{
  ℕ, suc, ◌+◌, String, Bool, true, false, Option, none, some, List, [], ◌∷◌, ◌++◌, map, ltb,
  find_first, update_first, text_eq, if◌then◌else◌,
}
use deep_agent_test.Domain.Triage.{Step, TriageResult, TriageStepModel, TriageRunModel}
use deep_agent_test.Infrastructure.Db.{Exec, gets, modify, commit, pure, ◌>>=◌, ◌>>◌}
use deep_agent_test.Infrastructure.Query.{order_by, limit}
use deep_agent_test.Infrastructure.Runtime.{Runtime}

abbrev pub equals : Option String → String → Bool
equals none id = false
equals (some run_id) id = text_eq run_id id

abbrev pub has_run : String → TriageRunModel → Bool
has_run id run = equals run.run_id id

-- `existing`: an empty run_id is not looked for.
abbrev pub existing_of : Option String → List TriageRunModel → Option TriageRunModel
existing_of none runs = none
existing_of (some id) runs = if text_eq id "" then none else find_first (has_run id) runs

abbrev pub step_to_model : ℕ → Step → TriageStepModel
step_to_model position s = record {
  position = position;
  step_type = s.step_type;
  name = s.name;
  input = s.input;
  output = s.output;
  approved = s.approved;
}

-- `[_step_to_model(s, pos) for pos, s in enumerate(steps)]`, from a position on.
abbrev pub steps_from : ℕ → List Step → List TriageStepModel
steps_from position [] = []
steps_from position (s ∷ ss) = step_to_model position s ∷ steps_from (suc position) ss

abbrev pub step_to_domain : TriageStepModel → Step
step_to_domain s = record {
  step_type = s.step_type;
  name = s.name;
  input = s.input;
  output = s.output;
  approved = s.approved;
}

-- `_run_to_domain`
unfoldable pub run_to_domain : TriageRunModel → TriageResult
run_to_domain run = record {
  trade_id = run.trade_id;
  status = run.status;
  run_id = run.run_id;
  pending_action_type = none;
  pending_action_description = run.pending_action_description;
  diagnosis = run.diagnosis;
  root_cause = run.root_cause;
  recommended_action = run.recommended_action;
  action_taken = run.action_taken;
  steps = map step_to_domain run.steps;
  agent_type = run.agent_type;
}

abbrev pub has_same_run : Option String → TriageRunModel → Bool
has_same_run none run = false
has_same_run (some id) run = has_run id run

module _ (rt : Runtime) where
  abbrev pub new_run : ℕ → TriageResult → TriageRunModel
  new_run id result = record {
    id = id;
    trade_id = result.trade_id;
    status = result.status;
    run_id = result.run_id;
    pending_action_description = result.pending_action_description;
    diagnosis = result.diagnosis;
    root_cause = result.root_cause;
    recommended_action = result.recommended_action;
    action_taken = result.action_taken;
    agent_type = result.agent_type;
    created_at = rt.now;
    updated_at = rt.now;
    steps = steps_from 0 result.steps;
  }

  -- `_update_run`
  abbrev pub updated_run : TriageResult → TriageRunModel → TriageRunModel
  updated_run result run = record run {
    status = result.status;
    pending_action_description = result.pending_action_description;
    diagnosis = result.diagnosis;
    root_cause = result.root_cause;
    recommended_action = result.recommended_action;
    action_taken = result.action_taken;
    updated_at = rt.now;
    steps = steps_from 0 result.steps;
  }

  unfoldable pub put_run :
      ℕ → TriageResult → Option TriageRunModel → List TriageRunModel → List TriageRunModel
  put_run id result none runs = runs ++ new_run id result ∷ []
  put_run id result (some run) runs =
      update_first (has_same_run result.run_id) (updated_run result) runs

  -- `save`
  unfoldable pub save : TriageResult → Exec (Unit {0})
  unfolding put_run
  save result = do
    existing ← gets (λ db. existing_of result.run_id db.runs)
    modify λ db. record db {
      runs = put_run db.next_id result existing db.runs;
      next_id = db.next_id + 1;
    }
    commit

abbrev newer : TriageRunModel → TriageRunModel → Bool
newer a b = ltb b.created_at a.created_at

-- `list_recent`
unfoldable pub list_recent : ℕ → Exec (List TriageResult)
unfolding run_to_domain
list_recent n = do
  runs ← gets (λ db. limit n (order_by newer db.runs))
  pure (map run_to_domain runs)
