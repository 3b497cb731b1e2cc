-- ===== src/Domain/Triage.antt =====
-- The result of a triage and its rows (src/domain/entities.py and src/infrastructure/db/models.py),
-- the exceptions and the reference data. Texts that the language model writes are code points.
-- Costs are left out.
use deep_agent_test.Prelude.{ℕ, String, Bool, Option, List}
use deep_agent_test.Domain.Json.{Members}
use deep_agent_test.Domain.Entities.{RootCause, FieldValue}

pub data TriageStatus : Type 0 where
  completed pending_approval : TriageStatus

-- An output is the JSON object that a tool returned, or a text under the key "raw".
pub data StepOutput : Type 0 where
  loaded : Members → StepOutput
  raw : List ℕ → StepOutput

pub data StepType : Type 0 where
  tool_call hitl_prompt hitl_response : StepType

pub record Step : Type 0 where
  pub step_type : StepType
  pub name : String
  pub input : List (String × FieldValue)
  pub output : Option StepOutput
  pub approved : Option Bool

pub record Diagnosis : Type 0 where
  pub diagnosis : List ℕ
  pub root_cause : RootCause
  pub recommended_action : List ℕ

pub record TriageResult : Type 0 where
  pub trade_id : String
  pub status : TriageStatus
  pub run_id : Option String
  pub pending_action_type : Option String
  pub pending_action_description : Option String
  pub diagnosis : Option (List ℕ)
  pub root_cause : Option RootCause
  pub recommended_action : Option (List ℕ)
  pub action_taken : Bool
  pub steps : List Step
  pub agent_type : String

-- A row of `triage_steps`; its run is the one in whose list it stands.
pub record TriageStepModel : Type 0 where
  pub position : ℕ
  pub step_type : StepType
  pub name : String
  pub input : List (String × FieldValue)
  pub output : Option StepOutput
  pub approved : Option Bool

-- A row of `triage_runs` with its steps.
pub record TriageRunModel : Type 0 where
  pub id : ℕ
  pub trade_id : String
  pub status : TriageStatus
  pub run_id : Option String
  pub pending_action_description : Option String
  pub diagnosis : Option (List ℕ)
  pub root_cause : Option RootCause
  pub recommended_action : Option (List ℕ)
  pub action_taken : Bool
  pub agent_type : String
  pub created_at : ℕ
  pub updated_at : ℕ
  pub steps : List TriageStepModel

-- A row of `stp_exceptions`. The status is a text, which the API writes as it is given.
pub record StpExceptionModel : Type 0 where
  pub id : ℕ
  pub trade_id : String
  pub error_message : String
  pub status : String
  pub triage_run_id : Option ℕ
  pub created_at : ℕ
  pub updated_at : ℕ

-- A row of `reference_data`.
pub record ReferenceDataModel : Type 0 where
  pub instrument_id : String
  pub description : String
  pub asset_class : String
  pub is_active : Bool
