-- ===== src/Agents/Results/Extracting.antt =====
-- `_extract_steps` of src/infrastructure/bo_triage_use_case.py and fo_triage_use_case.py, each with
-- its own list of the tools that wait for the operator.
use deep_agent_test.Prelude.{String, List, [], ◌∷◌, any, text_eq}
use deep_agent_test.Agents.{AgentMessage}
use deep_agent_test.Agents.Results.{Presenter, extract_steps}
use deep_agent_test.Agents.Results.Steps.{AreOutputs, AreSteps, all_calls, extract_steps-AreSteps}
use deep_agent_test.Agents.Bo.Graph.{is_hitl_call as is_bo_call}
use deep_agent_test.Agents.Fo.Graph.{is_hitl_call as is_fo_call}

-- The agents' tools that wait for the operator.
abbrev pub bo_prompts : List String
bo_prompts = "register_ssi" ∷ "reactivate_counterparty" ∷ "update_ssi" ∷ "send_back_to_fo" ∷ []

abbrev pub fo_prompts : List String
fo_prompts = "create_amend_event" ∷ "create_cancel_event" ∷ []

-- If the texts of the tool messages are JSON objects, null or no JSON, then `_extract_steps` of
-- either agent returns one step for each tool call of the messages, in their order, with the name
-- of the call: a prompt where the name is register_ssi, reactivate_counterparty, update_ssi or
-- send_back_to_fo for the Back Office, create_amend_event or create_cancel_event for the Front
-- Office, and a plain tool call else.
pub steps_extracted :
    (p : Presenter) (messages : List AgentMessage)
    → AreOutputs p messages
    → AreSteps
        (λ call. any (λ name. text_eq name call.name) bo_prompts)
        (all_calls messages)
        (extract_steps p is_bo_call messages)
      × AreSteps
          (λ call. any (λ name. text_eq name call.name) fo_prompts)
          (all_calls messages)
          (extract_steps p is_fo_call messages)
steps_extracted p messages outputs = (
  extract_steps-AreSteps p is_bo_call messages outputs,
  extract_steps-AreSteps p is_fo_call messages outputs,
)
