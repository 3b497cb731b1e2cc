-- ===== src/Agents/Fo.antt =====
-- src/infrastructure/fo_agent.py: the state, the routing and the nodes of the graph, and its runs
-- as src/infrastructure/fo_triage_use_case.py starts and resumes them.
pub mod Graph
pub mod Approvals
pub mod Unapproved
pub mod Results
pub mod Executing
pub mod Pending
use deep_agent_test.Prelude.{
  ℕ, String, Bool, true, false, Option, none, some, List, [], ◌∷◌, ◌++◌, find_first, text_eq, leb,
  if◌then◌else◌,
}
use deep_agent_test.Result.{Result, ok, err, type_error}
use deep_agent_test.Domain.Entities.{TradeModel}
use deep_agent_test.Infrastructure.Db.{Db, Exec, with_session, lift, pure, ◌>>=◌}
use deep_agent_test.Infrastructure.Runtime.{Runtime}
use deep_agent_test.Infrastructure.TradeRepository.{Fields, is_current_of}
use deep_agent_test.Infrastructure.Tools.{
  ToolResult, create_amend_event, create_cancel_event, provide_explanation, escalate_to_fo_user,
}
use deep_agent_test.Agents.{
  ToolCall, Content, AgentMessage, AgentRuntime, Reply, last_calls, is_named, required,
  names_of_failed, content_of,
}

pub data TriagePath : Type 0 where
  sendback fo_error unknown : TriagePath

abbrev path_name : TriagePath → String
path_name TriagePath.sendback = "SENDBACK"
path_name TriagePath.fo_error = "FO_ERROR"
path_name TriagePath.unknown = "UNKNOWN"

pub record FoAgentState : Type 0 where
  pub messages : List AgentMessage
  pub trade_id : String
  pub error_message : String
  pub action_taken : Bool
  pub triage_path : TriagePath
  pub sendback_count : ℕ
  pub failed_rules : List String

pub data Node : Type 0 where
  model_router gather_context agent read_tools : Node
  create_amend_event_node create_cancel_event_node : Node
  finish : Node

-- The nodes of `interrupt_before`.
abbrev pub is_hitl : Node → Bool
is_hitl Node.create_amend_event_node = true
is_hitl Node.create_cancel_event_node = true
is_hitl _ = false

-- `_FO_HITL_TOOL_TO_NODE`
abbrev pub hitl_node_of : String → Option Node
hitl_node_of name =
    if text_eq name "create_amend_event"
    then some Node.create_amend_event_node
    else if text_eq name "create_cancel_event"
    then some Node.create_cancel_event_node
    else none

abbrev pub route_calls : List ToolCall → Node
route_calls [] = Node.read_tools
route_calls (call ∷ calls) =
    let rest = route_calls calls in elim (hitl_node_of call.name) [ some n ↦ n | none ↦ rest ]

unfoldable pub route_after_agent : List ToolCall → Bool → Node
route_after_agent [] action_taken = Node.finish
route_after_agent (call ∷ calls) action_taken =
    if action_taken then Node.finish else route_calls (call ∷ calls)

-- The edges of the graph.
abbrev pub next : Node → FoAgentState → Node
next Node.model_router s = Node.gather_context
next Node.gather_context s = Node.agent
next Node.agent s = route_after_agent (last_calls s.messages) s.action_taken
next Node.read_tools s = Node.agent
next Node.create_amend_event_node s = Node.agent
next Node.create_cancel_event_node s = Node.agent
next Node.finish s = Node.finish

abbrev pub say : AgentMessage → FoAgentState → FoAgentState
say message s = record s { messages = s.messages ++ message ∷ [] }

abbrev any_failed : List String → TriagePath
any_failed [] = TriagePath.unknown
any_failed (r ∷ rs) = TriagePath.fo_error

abbrev path_of : ℕ → List String → TriagePath
path_of count rules =
    let by_rules = any_failed rules in if leb 1 count then TriagePath.sendback else by_rules

-- `gather_context_node`. The message quotes the reason of a sendback only where there was one.
abbrev reason_text : Option String → String
reason_text none = ""
reason_text (some reason) = reason

abbrev pub gather : FoAgentState → Option TradeModel → FoAgentState
gather s none = record s { triage_path = TriagePath.unknown; sendback_count = 0; failed_rules = [] }
gather s (some trade) =
    let rules = names_of_failed trade.fo_check_results in
    let path = path_of trade.sendback_count rules in
    let reason = if leb 1 trade.sendback_count then reason_text trade.bo_sendback_reason else "" in
    say
      (AgentMessage.human
        (Content.context s.trade_id "" reason trade.sendback_count rules (path_name path)))
      (record s { triage_path = path; sendback_count = trade.sendback_count; failed_rules = rules })

abbrev pub gather_context_node : FoAgentState → Db → FoAgentState
gather_context_node s db = gather s (find_first (is_current_of s.trade_id) db.trades)

abbrev pub agent_node : Reply → FoAgentState → FoAgentState
agent_node reply s = say (AgentMessage.ai (Content.text reply.content) reply.calls) s

module _ (rt : Runtime) (env : AgentRuntime) where
  unfoldable pub invoke_amend : Fields → Exec ToolResult
  invoke_amend args = do
    trade_id ← lift (required env "trade_id" args)
    reason ← lift (required env "reason" args)
    amended_fields ← lift (required env "amended_fields" args)
    create_amend_event rt env.json_object trade_id reason amended_fields

  unfoldable pub invoke_cancel : Fields → Exec ToolResult
  invoke_cancel args = do
    trade_id ← lift (required env "trade_id" args)
    reason ← lift (required env "reason" args)
    create_cancel_event rt trade_id reason

  unfoldable pub invoke_explain : Fields → Exec ToolResult
  invoke_explain args = do
    trade_id ← lift (required env "trade_id" args)
    explanation ← lift (required env "explanation" args)
    provide_explanation rt trade_id explanation

  unfoldable pub invoke_escalate : Fields → Exec ToolResult
  invoke_escalate args = do
    trade_id ← lift (required env "trade_id" args)
    reason ← lift (required env "reason" args)
    escalate_to_fo_user rt trade_id reason

-- `_make_hitl_node`
abbrev pub run_call :
    (Fields → Exec ToolResult) → FoAgentState → Option ToolCall → Db → Result FoAgentState × Db
run_call invoke s none db = (err type_error, db)
run_call invoke s (some call) db =
    let (r, db') = with_session (invoke call.args) db in
    (ok (say (AgentMessage.tool (content_of r) call.id) (record s { action_taken = true })), db')

abbrev pub hitl_node :
    String → (Fields → Exec ToolResult) → FoAgentState → Db → Result FoAgentState × Db
hitl_node name invoke s db =
    run_call invoke s (find_first (is_named name) (last_calls s.messages)) db

module _ (rt : Runtime) (env : AgentRuntime) where
  -- One call in the node of the read-only tools, two of which write at once.
  abbrev pub read_call : ToolCall → Db → Content × Db
  read_call call db =
      let (explained, db_explained) = with_session (invoke_explain rt env call.args) db in
      let (escalated, db_escalated) = with_session (invoke_escalate rt env call.args) db in
      if text_eq call.name "provide_explanation"
      then (content_of explained, db_explained)
      else if text_eq call.name "escalate_to_fo_user"
      then (content_of escalated, db_escalated)
      else (Content.text (env.read_tool call db), db)

  abbrev pub read_calls : List ToolCall → FoAgentState → Db → FoAgentState × Db
  read_calls [] s db = (s, db)
  read_calls (call ∷ calls) s db =
      let (content, db') = read_call call db in
      read_calls calls (say (AgentMessage.tool content call.id) s) db'

  abbrev returned : FoAgentState × Db → Result FoAgentState × Db
  returned (s, db) = (ok s, db)

  -- What a node does. The node `model_router` chooses the language model.
  unfoldable pub act : Reply → Node → FoAgentState → Db → Result FoAgentState × Db
  act reply Node.model_router s db = (ok s, db)
  act reply Node.gather_context s db = (ok (gather_context_node s db), db)
  act reply Node.agent s db = (ok (agent_node reply s), db)
  act reply Node.read_tools s db = returned (read_calls (last_calls s.messages) s db)
  act reply Node.create_amend_event_node s db =
      hitl_node "create_amend_event" (invoke_amend rt env) s db
  act reply Node.create_cancel_event_node s db =
      hitl_node "create_cancel_event" (invoke_cancel rt env) s db
  act reply Node.finish s db = (err type_error, db)
