-- ===== src/Agents/Results/Steps.antt =====
-- `_extract_steps` of src/infrastructure/bo_triage_use_case.py and fo_triage_use_case.py.
use mathlib.Core.List.{map-append}
use deep_agent_test.Prelude.{
  ℕ, ◌≡◌, refl, ap, ◌∙◌, ◌++◌, String, Bool, true, false, Option, none, some, List, [], ◌∷◌, map,
  Option-cases, inl, inr, if◌then◌else◌,
}
use deep_agent_test.Result.{Result, ok, ◌>>=◌}
use deep_agent_test.Domain.Json.{Json}
use deep_agent_test.Agents.{ToolCall, Content, AgentMessage, calls_of}
use deep_agent_test.Domain.Triage.{StepType, hitl_prompt, tool_call, Step, StepOutput}
use deep_agent_test.Agents.Results.{
  Presenter, checked_output, output_of, tool_result, step_of, steps_of, steps_in, extract_steps,
  step_type_of,
}

abbrev pub is_output : Option Json → Bool
is_output none = true
is_output (some (Json.obj m)) = true
is_output (some Json.null) = true
is_output (some _) = false

-- The texts of the tool messages are JSON objects or null, as what the tools write is, or no JSON.
pub record AreOutputs (p : Presenter) (messages : List AgentMessage) : Type 0 where
  pub at :
      (id : String) (content : Content)
      → tool_result id messages ≡ some content
      → is_output (p.loads (p.content_text content)) ≡ true

-- The tool calls of all messages, in their order.
abbrev pub all_calls : List AgentMessage → List ToolCall
all_calls [] = []
all_calls (m ∷ ms) = calls_of (some m) ++ all_calls ms

abbrev pub named : (ToolCall → Bool) → ToolCall → StepType × String
named is_prompt call = (if is_prompt call then hitl_prompt else tool_call, call.name)

abbrev pub kind : Step → StepType × String
kind s = (s.step_type, s.name)

-- The steps are those of the calls: the same names in the same order, prompts where the call passes
-- the test and plain calls else.
pub record AreSteps (is_prompt : ToolCall → Bool) (calls : List ToolCall) (r : Result (List Step))
    : Type 0 where
  pub steps : List Step
  pub returned : r ≡ ok steps
  pub same : map kind steps ≡ map (named is_prompt) calls

step_type_of-if :
    (prompt : Bool) → step_type_of prompt ≡ (if prompt then hitl_prompt else tool_call)
step_type_of-if true = refl
step_type_of-if false = refl

checked_output_ok :
    (p : Presenter) (text : List ℕ) (o : Option Json)
    → is_output o ≡ true
    → (v : Option StepOutput) × (checked_output p text o ≡ ok v)
unfolding checked_output
checked_output_ok p text none h = (_, refl)
checked_output_ok p text (some (Json.obj m)) h = (_, refl)
checked_output_ok p text (some Json.null) h = (_, refl)
checked_output_ok p text (some _) h = cc

module _ (p : Presenter) (is_prompt : ToolCall → Bool) (messages : List AgentMessage)
    (outputs : AreOutputs p messages) where
  output_of_ok :
      (id : String) → (v : Option StepOutput) × (output_of p (tool_result id messages) ≡ ok v)
  output_of_ok id = elim (Option-cases (tool_result id messages)) [
    | inl no_message ↦ (none, rw no_message refl)
    | inr (content, found) ↦
        let (v, e) = checked_output_ok p (p.content_text content) _ (outputs.at id content found) in
        (v, rw found e)
  ]

  steps_of-AreSteps :
      (calls : List ToolCall) → AreSteps is_prompt calls (steps_of p is_prompt messages calls)
  unfolding steps_of step_of
  steps_of-AreSteps [] = record { steps = []; returned = refl; same = refl }
  steps_of-AreSteps (call ∷ calls) =
      let (v, e) = output_of_ok call.id in
      let rest = steps_of-AreSteps calls in
      let step : Step = record {
        step_type = step_type_of (is_prompt call);
        name = call.name;
        input = call.args;
        output = v;
        approved = none;
      } in
      record {
        steps = step ∷ rest.steps;
        returned =
            ap
              (λ (o : Result (Option StepOutput)).
                (o >>= λ w. ok (record step { output = w })) >>= λ s.
                steps_of p is_prompt messages calls >>= λ ss. ok (s ∷ ss))
              e
            ∙ ap (λ (r : Result (List Step)). r >>= λ ss. ok (step ∷ ss)) rest.returned;
        same = cc (step_type_of-if (is_prompt call), rest.same);
      }

  steps_in-AreSteps :
      (ms : List AgentMessage)
      → AreSteps is_prompt (all_calls ms) (steps_in p is_prompt messages ms)
  unfolding steps_in
  steps_in-AreSteps [] = record { steps = []; returned = refl; same = refl }
  steps_in-AreSteps (m ∷ ms) =
      let here = steps_of-AreSteps (calls_of (some m)) in
      let later = steps_in-AreSteps ms in
      record {
        steps = here.steps ++ later.steps;
        returned =
            ap
              (λ (r : Result (List Step)).
                r >>= λ a. steps_in p is_prompt messages ms >>= λ b. ok (a ++ b))
              here.returned
            ∙ ap (λ (r : Result (List Step)). r >>= λ b. ok (here.steps ++ b)) later.returned;
        same = cc (
          map-append kind here.steps later.steps,
          map-append (named is_prompt) (calls_of (some m)) (all_calls ms),
          here.same,
          later.same,
        );
      }

  pub extract_steps-AreSteps :
      AreSteps is_prompt (all_calls messages) (extract_steps p is_prompt messages)
  unfolding extract_steps
  extract_steps-AreSteps = steps_in-AreSteps messages
