-- ===== src/Agents/Bo.antt =====
-- src/infrastructure/bo_agent.py: the state, the routing functions and the edges of the graph.
pub mod Handlers
pub mod Nodes
pub mod Graph
pub mod Routing
pub mod Approvals
pub mod Unapproved
pub mod Validity
pub mod Results
pub mod Executing
pub mod Pending
use deep_agent_test.Prelude.{
  ℕ, ◌+◌, String, Bool, true, false, not, ◌&&◌, ◌||◌, Option, none, some, List, [], ◌∷◌, ◌++◌, map,
  select, any, find_first, text_eq, ◌==◌, if◌then◌else◌,
}
use deep_agent_test.Result.{Error, Result, ok, err, value_error, type_error, no_fuel}
use deep_agent_test.Domain.Text.{codes, contains, upper_code}
use deep_agent_test.Domain.Entities.{
  CheckResult, TradeModel, FieldValue, text_value, other_value, SettlementInstructionModel,
}
use deep_agent_test.Infrastructure.Db.{Db, Exec, with_session, raise, lift, ◌>>=◌}
use deep_agent_test.Infrastructure.Runtime.{Runtime}
use deep_agent_test.Infrastructure.TradeRepository.{Fields, is_current_of}
use deep_agent_test.Infrastructure.RuleEngine.{is_failed, is_ssi}
use deep_agent_test.Infrastructure.Tools.{
  ToolResult, send_back_to_fo, escalate_to_bo_user, register_ssi, reactivate_counterparty,
  update_ssi,
}
use deep_agent_test.Agents.{
  ToolCall, Content, AgentMessage, AgentRuntime, last_message, last_calls, is_named, member,
  required, optional,
}

pub data TriagePath : Type 0 where
  ag01 missing_ssi be01 am04 unknown compound : TriagePath

pub record BoAgentState : Type 0 where
  pub messages : List AgentMessage
  pub trade_id : String
  pub error_message : String
  pub action_taken : Bool
  pub triage_path : TriagePath
  pub sendback_count : ℕ
  pub failed_rules : List String
  pub counterparty_lei : String
  pub currency : String
  pub external_ssi : Option SettlementInstructionModel

pub data Node : Type 0 where
  model_router gather_context agent rag_context deep_investigation read_tools : Node
  ag01_handler lookup_ssi prepare_register_ssi ssi_not_found_escalate : Node
  be01_handler fo_side_handler : Node
  reactivate_counterparty_node register_ssi_node send_back_to_fo_node : Node
  reactivate_counterparty_node_di register_ssi_node_di update_ssi_node_di : Node
  send_back_to_fo_node_di : Node
  finish : Node

-- `_BO_ALL_HITL_NODE_NAMES`, where the graph is interrupted.
abbrev pub is_hitl : Node → Bool
is_hitl Node.reactivate_counterparty_node = true
is_hitl Node.register_ssi_node = true
is_hitl Node.send_back_to_fo_node = true
is_hitl Node.reactivate_counterparty_node_di = true
is_hitl Node.register_ssi_node_di = true
is_hitl Node.update_ssi_node_di = true
is_hitl Node.send_back_to_fo_node_di = true
is_hitl _ = false

-- The conditions of `_determine_triage_path`, in its order.
abbrev mentions : String → String → Bool
mentions code message = contains (map upper_code (codes message)) (codes code)

abbrev pub ag01_condition : String → List String → Bool
ag01_condition message rules = mentions "AG01" message || member "counterparty_active" rules

abbrev pub be01_condition : String → List String → Bool
be01_condition message rules =
    mentions "BE01" message || (member "bic_format_valid" rules || member "iban_format_valid" rules)

abbrev pub am04_condition : String → List String → Bool
am04_condition message rules = mentions "AM04" message

abbrev pub missing_ssi_condition : String → List String → Bool
missing_ssi_condition message rules = mentions "AC01" message || member "ssi_exists" rules

abbrev pub conditions : String → List String → List (TriagePath × Bool)
conditions message rules =
    (TriagePath.ag01, ag01_condition message rules)
    ∷ (TriagePath.be01, be01_condition message rules)
    ∷ (TriagePath.am04, am04_condition message rules)
    ∷ (TriagePath.missing_ssi, missing_ssi_condition message rules)
    ∷ []

abbrev path_of_matched : List (TriagePath × Bool) → TriagePath
path_of_matched [] = TriagePath.unknown
path_of_matched (m ∷ []) = m.0
path_of_matched (m ∷ n ∷ rest) = TriagePath.compound

unfoldable pub determine_triage_path : String → List String → TriagePath
determine_triage_path message rules = path_of_matched (select (λ c. c.1) (conditions message rules))

-- `_route_by_triage_path`, with the edge map of the graph: deep investigation is entered by the
-- node that adds similar cases.
abbrev pub route_by_triage_path : TriagePath → Node
route_by_triage_path TriagePath.ag01 = Node.ag01_handler
route_by_triage_path TriagePath.missing_ssi = Node.lookup_ssi
route_by_triage_path TriagePath.be01 = Node.be01_handler
route_by_triage_path TriagePath.am04 = Node.fo_side_handler
route_by_triage_path TriagePath.compound = Node.rag_context
route_by_triage_path TriagePath.unknown = Node.rag_context

abbrev pub route_after_ssi_lookup : Option SettlementInstructionModel → Node
route_after_ssi_lookup (some ssi) = Node.prepare_register_ssi
route_after_ssi_lookup none = Node.ssi_not_found_escalate

abbrev pub route_after_fo_side_handler : Bool → Node
route_after_fo_side_handler action_taken =
    if action_taken then Node.agent else Node.send_back_to_fo_node

-- `_BO_HITL_TOOL_TO_NODE`
abbrev pub hitl_node_of : String → Option Node
hitl_node_of name =
    if text_eq name "register_ssi"
    then some Node.register_ssi_node_di
    else if text_eq name "reactivate_counterparty"
    then some Node.reactivate_counterparty_node_di
    else if text_eq name "update_ssi"
    then some Node.update_ssi_node_di
    else if text_eq name "send_back_to_fo"
    then some Node.send_back_to_fo_node_di
    else none

-- The loop over the tool calls of `_route_after_agent`.
abbrev pub route_calls : List ToolCall → Node
route_calls [] = Node.read_tools
route_calls (call ∷ calls) =
    let rest = route_calls calls in elim (hitl_node_of call.name) [ some n ↦ n | none ↦ rest ]

unfoldable pub route_after_agent : List ToolCall → Bool → Node
route_after_agent [] action_taken = Node.finish
route_after_agent (call ∷ calls) action_taken =
    if action_taken then Node.finish else route_calls (call ∷ calls)

-- The edges of the graph: where a node leads from the state that it leaves.
abbrev pub next : Node → BoAgentState → Node
next Node.model_router s = Node.gather_context
next Node.gather_context s = route_by_triage_path s.triage_path
next Node.rag_context s = Node.deep_investigation
next Node.ag01_handler s = Node.reactivate_counterparty_node
next Node.reactivate_counterparty_node s = Node.agent
next Node.lookup_ssi s = route_after_ssi_lookup s.external_ssi
next Node.prepare_register_ssi s = Node.register_ssi_node
next Node.register_ssi_node s = Node.agent
next Node.ssi_not_found_escalate s = Node.agent
next Node.be01_handler s = Node.agent
next Node.fo_side_handler s = route_after_fo_side_handler s.action_taken
next Node.send_back_to_fo_node s = Node.agent
next Node.agent s = route_after_agent (last_calls s.messages) s.action_taken
next Node.deep_investigation s = route_after_agent (last_calls s.messages) s.action_taken
next Node.read_tools s = Node.deep_investigation
next Node.reactivate_counterparty_node_di s = Node.deep_investigation
next Node.register_ssi_node_di s = Node.deep_investigation
next Node.update_ssi_node_di s = Node.deep_investigation
next Node.send_back_to_fo_node_di s = Node.deep_investigation
next Node.finish s = Node.finish

abbrev pub say : AgentMessage → BoAgentState → BoAgentState
say message s = record s { messages = s.messages ++ message ∷ [] }
