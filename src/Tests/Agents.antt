-- ===== src/Tests/Agents.antt =====
-- Runs of the agents on the sample database.
use deep_agent_test.Prelude.{◌≡◌, ◌≤◌, refl, String, some, [], ◌∷◌}
use deep_agent_test.Result.{Result, ok, err, type_error}
use deep_agent_test.Domain.Text.{contains}
use deep_agent_test.Domain.Entities.{FieldValue, text_value}
use deep_agent_test.Infrastructure.Db.{◌>>=◌}
use deep_agent_test.Infrastructure.Validity.{IsValid}
use deep_agent_test.Infrastructure.TradeRepository.{update_workflow_status}
use deep_agent_test.Infrastructure.Tools.{send_back_to_fo}
use deep_agent_test.Agents.{AgentRuntime, Reply}
use deep_agent_test.Agents.Bo.{TriagePath, BoAgentState, Node, determine_triage_path}
use deep_agent_test.Agents.Bo.Nodes.{act, invoke_sendback}
use deep_agent_test.Agents.Bo.Handlers.{fo_side_handler_node}
use deep_agent_test.Agents.Bo.Graph.{Config, Steps, none_yet, runs, approved, start, leave}
use deep_agent_test.Agents.Bo.Routing.{PathFits, determine_triage_path_lem, sendback_guard}
use deep_agent_test.Agents.Bo.Approvals.{one_approval}
use deep_agent_test.Agents.Bo.Unapproved.{SameButStatus, unapproved_writes}
use deep_agent_test.Agents.Bo.Validity.{Steps-IsValid}
use deep_agent_test.Tests.{sample, surroundings}
use deep_agent_test.Tests.Events.{sample-IsValid}
use deep_agent_test.Tests.Results.{presenter, presenter-AreOutputs}
use deep_agent_test.Domain.Triage.{TriageResult, pending_approval}
use deep_agent_test.Agents.Bo.Results.{build_result, format_bo_hitl_action}
use deep_agent_test.Agents.Bo.Executing.{RunsCall}
use deep_agent_test.Agents.Bo.Pending.{shown_is_executed}
use deep_agent_test.Agents.{ToolCall}
use deep_agent_test.Agents.Bo.{is_hitl}
use deep_agent_test.Prelude.{◌≢◌, true, none, some}
use deep_agent_test.Agents.Bo.Graph.{reject}

abbrev pub text_of : FieldValue → Result String
text_of (text_value s) = ok s
text_of _ = err type_error

abbrev pub agents : AgentRuntime
agents = record {
  str_argument = text_of;
  json_object = λ text. some [];
  read_tool = λ call db. "read";
  show = λ n. "n";
  repr = λ text. text;
  repr_list = λ texts. "list";
  search_similar = λ message rules. [];
}

abbrev pub answer_text : Reply
answer_text = record { content = "done"; calls = [] }

abbrev pub state_of : BoAgentState → Result BoAgentState → BoAgentState
state_of s (ok t) = t
state_of s (err e) = s

unfoldable pub advance : Config → Config
unfolding act fo_side_handler_node invoke_sendback send_back_to_fo update_workflow_status ◌>>=◌
    determine_triage_path contains
advance c =
    leave c.node (state_of c.state (act surroundings agents answer_text c.node c.state c.db).0)
      (act surroundings agents answer_text c.node c.state c.db).1

abbrev pub first : Config
first = start "T3" "AM04: no liquidity" sample

-- The run up to the proposal to send the trade back.
unfoldable pub proposed : Config
unfolding advance
proposed = advance (advance (advance first))

pub up_to_proposed : Steps surroundings agents 0 first proposed
unfolding proposed advance act determine_triage_path contains fo_side_handler_node
up_to_proposed =
    runs answer_text (runs answer_text (runs answer_text none_yet refl refl) refl refl) refl refl

pub proposed_node : proposed.node ≡ Node.send_back_to_fo_node
unfolding proposed advance act determine_triage_path contains fo_side_handler_node
proposed_node = refl

sendback_guard_example :
    (proposed.state.triage_path ≡ TriagePath.am04) × (proposed.state.sendback_count ≡ 0)
sendback_guard_example =
    sendback_guard surroundings agents 0 "T3" "AM04: no liquidity" sample proposed up_to_proposed
      proposed_node

unapproved_writes_example : SameButStatus sample proposed.db
unapproved_writes_example = unapproved_writes surroundings agents first proposed up_to_proposed

up_to_sent : Steps surroundings agents 1 first (advance proposed)
unfolding proposed advance act determine_triage_path contains fo_side_handler_node invoke_sendback
    send_back_to_fo update_workflow_status ◌>>=◌
up_to_sent = approved answer_text up_to_proposed refl refl

one_approval_example : 1 ≤ 1
one_approval_example =
    one_approval surroundings agents 1 "T3" "AM04: no liquidity" sample (advance proposed)
      up_to_sent

Steps-IsValid_example : IsValid (advance proposed).db
Steps-IsValid_example =
    Steps-IsValid surroundings agents 1 first (advance proposed) up_to_sent sample-IsValid

determine_triage_path_lem_example :
    PathFits "SWIFT AG01 returned" ("counterparty_active" ∷ "ssi_exists" ∷ [])
determine_triage_path_lem_example =
    determine_triage_path_lem "SWIFT AG01 returned" ("counterparty_active" ∷ "ssi_exists" ∷ [])

proposed_asks : is_hitl proposed.node ≡ true
unfolding proposed advance act
proposed_asks = refl

shown_is_executed_example :
    (call : ToolCall) × (r : TriageResult) × (build_result presenter "r1" "T3" none proposed ≡ ok r)
    × (r.status ≡ pending_approval)
    × (r.pending_action_type ≡ some call.name)
    × (r.pending_action_description ≡ some (format_bo_hitl_action presenter call))
    × RunsCall surroundings agents answer_text proposed.node proposed.state proposed.db call
    × (reject proposed.state ≢ none)
shown_is_executed_example =
    shown_is_executed surroundings agents presenter "r1" none 0 "T3" "AM04: no liquidity" sample
      proposed answer_text up_to_proposed proposed_asks
      (presenter-AreOutputs proposed.state.messages)
