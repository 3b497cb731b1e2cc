-- ===== src/Agents/Bo/Results.antt =====
-- The results of src/infrastructure/bo_triage_use_case.py: what `start` and `resume` make of the
-- state at which the graph has halted or ended. The storing of a completed result for retrieval is
-- left out.
use deep_agent_test.Prelude.{
  String, Bool, false, Option, none, some, List, [], ◌∷◌, ◌++◌, find_first, text_eq, if◌then◌else◌,
}
use Prim.Native.String.{◌++◌ as ◌<>◌}
use deep_agent_test.Result.{Result, ok, ◌>>=◌}
use deep_agent_test.Infrastructure.TradeRepository.{Fields, field}
use deep_agent_test.Agents.{ToolCall, last_calls}
use deep_agent_test.Domain.Triage.{TriageResult, completed, pending_approval}
use deep_agent_test.Agents.Results.{Presenter, parse_llm_output, extract_steps}
use deep_agent_test.Agents.Bo.{BoAgentState, is_hitl}
use deep_agent_test.Agents.Bo.Graph.{Config, is_hitl_call}

-- `", ".join(parts)`
abbrev joined : List String → String
joined [] = ""
joined (t ∷ []) = t
joined (t ∷ u ∷ ts) = t <> (", " <> joined (u ∷ ts))

abbrev pub name_of : Option ToolCall → Option String
name_of none = none
name_of (some call) = some call.name

module _ (p : Presenter) where
  abbrev pub shown : String → Fields → String
  shown key args = p.show_value (field key args)

  -- `if args.get(key): parts.append(...)`
  abbrev part : String → String → Fields → List String
  part label key args = elim (field key args) [
    | none ↦ []
    | some v ↦ if p.is_true v then (label <> p.show_value (some v)) ∷ [] else []
  ]

  abbrev pub reason_or_empty : Fields → String
  reason_or_empty args = elim (field "reason" args) [ none ↦ "" | some v ↦ p.show_value (some v) ]

  unfoldable pub format_bo_hitl_action : ToolCall → String
  format_bo_hitl_action call =
      let args = call.args in
      if text_eq call.name "register_ssi"
      then "Register SSI for LEI '"
        <> (shown "lei" args
            <> ("' / currency '"
                <> (shown "currency" args
                    <> ("': BIC="
                        <> (shown "bic" args <> (", account=" <> shown "account" args))))))
      else if text_eq call.name "reactivate_counterparty"
      then "Reactivate counterparty LEI '" <> (shown "lei" args <> "' (set is_active = True)")
      else if text_eq call.name "update_ssi"
      then "Update SSI — "
        <> joined (
            ("LEI '" <> (shown "lei" args <> ("' / currency '" <> (shown "currency" args <> "'"))))
            ∷ (part "BIC=" "bic" args
                ++ (part "account=" "account" args ++ part "iban=" "iban" args)))
      else if text_eq call.name "send_back_to_fo"
      then "Send trade '" <> (shown "trade_id" args <> ("' back to FO: " <> reason_or_empty args))
      else "Pending action: " <> call.name

  abbrev pub describe : Option ToolCall → String
  describe none = "Pending operator action"
  describe (some call) = format_bo_hitl_action call

  unfoldable pub pending_result : String → String → BoAgentState → Result TriageResult
  pending_result run_id trade_id s = do
    steps ← extract_steps p is_hitl_call s.messages
    ok (record {
      trade_id = trade_id;
      status = pending_approval;
      run_id = some run_id;
      pending_action_type = name_of (find_first is_hitl_call (last_calls s.messages));
      pending_action_description =
          some (describe (find_first is_hitl_call (last_calls s.messages)));
      diagnosis = none;
      root_cause = none;
      recommended_action = none;
      action_taken = false;
      steps = steps;
      agent_type = "bo";
    })

  unfoldable pub completed_result : String → String → Bool → BoAgentState → Result TriageResult
  completed_result run_id trade_id action_taken s = do
    told ← parse_llm_output p s.messages
    steps ← extract_steps p is_hitl_call s.messages
    ok (record {
      trade_id = trade_id;
      status = completed;
      run_id = some run_id;
      pending_action_type = none;
      pending_action_description = none;
      diagnosis = some told.diagnosis;
      root_cause = some told.root_cause;
      recommended_action = some told.recommended_action;
      action_taken = action_taken;
      steps = steps;
      agent_type = "bo";
    })

  abbrev pub or_state : Option Bool → Bool → Bool
  or_state none b = b
  or_state (some override) b = override

  -- `start` gives no override, `resume` the operator's decision.
  unfoldable pub build_result : String → String → Option Bool → Config → Result TriageResult
  unfolding pending_result completed_result
  build_result run_id trade_id override c =
      if is_hitl c.node
      then pending_result run_id trade_id c.state
      else completed_result run_id trade_id (or_state override c.state.action_taken) c.state
