-- ===== src/Tests/Results.antt =====
-- The texts that the results of the agents' runs are read from.
use deep_agent_test.Prelude.{
  any, text_eq, ℕ, ◌≡◌, ◌⊎◌, refl, none, some, true, List, [], ◌∷◌, ◌++◌, Bool-cases, inl, inr,
  if◌then◌else◌,
}
use deep_agent_test.Result.{ok, err, type_error}
use deep_agent_test.Domain.Text.{codes, contains}
use deep_agent_test.Domain.Json.{Json, codes_eq}
use deep_agent_test.Agents.{Content, AgentMessage}
use deep_agent_test.Domain.Triage.{Diagnosis}
use deep_agent_test.Agents.Results.{
  Presenter, extract_steps, strip_right, fence, json_text, parse_llm_output,
}
use deep_agent_test.Agents.Results.Steps.{is_output, AreOutputs, AreSteps, all_calls}
use deep_agent_test.Agents.Results.Extracting.{bo_prompts, fo_prompts, steps_extracted}
use deep_agent_test.Agents.Bo.Graph.{is_hitl_call as is_bo_call}
use deep_agent_test.Agents.Fo.Graph.{is_hitl_call as is_fo_call}
use deep_agent_test.Agents.Results.Parsing.{IsIndexed, parse_llm_output_lem, json_text-fenced}

abbrev pub written : Content → List ℕ
written (Content.text s) = codes s
written _ = []

-- Only "null" is read.
abbrev pub presenter : Presenter
presenter = record {
  content_text = written;
  loads = λ cs. if codes_eq cs (codes "null") then some Json.null else none;
  show_json = λ j. [];
  show_value = λ v. "value";
  is_true = λ v. true;
}

-- A final message of the model that is the JSON text "null".
abbrev null_answer : List AgentMessage
null_answer = AgentMessage.ai (Content.text "null") [] ∷ []

parse_llm_output_lem_example :
    ((d : Diagnosis) × (parse_llm_output presenter null_answer ≡ ok d))
    ⊎ ((parse_llm_output presenter null_answer ≡ err type_error) × IsIndexed presenter null_answer)
parse_llm_output_lem_example = parse_llm_output_lem presenter null_answer

raised : parse_llm_output presenter null_answer ≡ err type_error
unfolding parse_llm_output
raised = refl

json_text-fenced_example :
    json_text (codes "```json\n" ++ (codes "{\"a\": 1}" ++ (10 ∷ fence))) ≡ codes "{\"a\": 1}"
unfolding contains strip_right
json_text-fenced_example = json_text-fenced (codes "\"a\": 1}") refl refl

read_null : (cs : List ℕ) → is_output (presenter.loads cs) ≡ true
read_null cs = elim (Bool-cases (codes_eq cs (codes "null"))) [
  | inl null ↦ rw null refl
  | inr other ↦ rw other refl
]

pub presenter-AreOutputs : (messages : List AgentMessage) → AreOutputs presenter messages
presenter-AreOutputs messages = record { at = λ id content e. read_null (written content) }

-- A call with an answer and one without.
abbrev two_calls : List AgentMessage
two_calls =
    AgentMessage.ai (Content.text "") (
      record { id = "a"; name = "get_counterparty"; args = [] }
      ∷ record { id = "b"; name = "register_ssi"; args = [] }
      ∷ [])
    ∷ AgentMessage.tool (Content.text "null") "a"
    ∷ []

steps_extracted_example :
    AreSteps
      (λ call. any (λ name. text_eq name call.name) bo_prompts)
      (all_calls two_calls)
      (extract_steps presenter is_bo_call two_calls)
    × AreSteps
        (λ call. any (λ name. text_eq name call.name) fo_prompts)
        (all_calls two_calls)
        (extract_steps presenter is_fo_call two_calls)
steps_extracted_example = steps_extracted presenter two_calls (presenter-AreOutputs two_calls)
