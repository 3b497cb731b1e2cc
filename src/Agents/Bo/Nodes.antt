-- ===== src/Agents/Bo/Nodes.antt =====
-- The nodes of src/infrastructure/bo_agent.py. A node that calls tools reads and writes the
-- database, each tool in a session of its own; an exception that a node raises ends the run.
use deep_agent_test.Prelude.{
  String, true, Option, none, some, List, [], ◌∷◌, find_first, text_eq, if◌then◌else◌,
}
use deep_agent_test.Result.{Result, ok, err, type_error}
use deep_agent_test.Infrastructure.Db.{Db, Exec, with_session, lift, ◌>>=◌}
use deep_agent_test.Infrastructure.Runtime.{Runtime}
use deep_agent_test.Infrastructure.TradeRepository.{Fields}
use deep_agent_test.Infrastructure.Tools.{
  ToolResult, send_back_to_fo, escalate_to_bo_user, register_ssi, reactivate_counterparty,
  update_ssi,
}
use deep_agent_test.Agents.{
  Reply, content_of, ToolCall, Content, AgentMessage, AgentRuntime, last_calls, is_named, required,
  optional,
}
use deep_agent_test.Agents.Bo.{BoAgentState, Node, say}
use deep_agent_test.Agents.Bo.Handlers.{
  gather_context_node, ag01_handler_node, lookup_ssi_node, prepare_register_ssi_node,
  ssi_not_found_escalate_node, be01_handler_node, fo_side_handler_node, rag_context_node,
  llm_invoke,
}

module _ (rt : Runtime) (env : AgentRuntime) where
  -- `tool_fn.invoke(args)`: the schema of the tool, then the tool.
  unfoldable pub invoke_register : Fields → Exec ToolResult
  invoke_register args = do
    lei ← lift (required env "lei" args)
    currency ← lift (required env "currency" args)
    bic ← lift (required env "bic" args)
    account ← lift (required env "account" args)
    iban ← lift (optional env "iban" args)
    register_ssi rt lei currency bic account iban

  unfoldable pub invoke_reactivate : Fields → Exec ToolResult
  invoke_reactivate args = do lei ← lift (required env "lei" args); reactivate_counterparty rt lei

  unfoldable pub invoke_update : Fields → Exec ToolResult
  invoke_update args = do
    lei ← lift (required env "lei" args)
    currency ← lift (required env "currency" args)
    bic ← lift (optional env "bic" args)
    account ← lift (optional env "account" args)
    iban ← lift (optional env "iban" args)
    update_ssi rt lei currency bic account iban

  unfoldable pub invoke_sendback : Fields → Exec ToolResult
  invoke_sendback args = do
    trade_id ← lift (required env "trade_id" args)
    reason ← lift (required env "reason" args)
    send_back_to_fo rt trade_id reason

  unfoldable pub invoke_escalate : Fields → Exec ToolResult
  invoke_escalate args = do
    trade_id ← lift (required env "trade_id" args)
    reason ← lift (required env "reason" args)
    escalate_to_bo_user rt trade_id reason

-- `_make_hitl_node`: the first call of that name is executed. Without one, `next` raises.
abbrev pub run_call :
    (Fields → Exec ToolResult) → BoAgentState → Option ToolCall → Db → Result BoAgentState × Db
run_call invoke s none db = (err type_error, db)
run_call invoke s (some call) db =
    let (r, db') = with_session (invoke call.args) db in
    (ok (say (AgentMessage.tool (content_of r) call.id) (record s { action_taken = true })), db')

abbrev pub hitl_node :
    String → (Fields → Exec ToolResult) → BoAgentState → Db → Result BoAgentState × Db
hitl_node name invoke s db =
    run_call invoke s (find_first (is_named name) (last_calls s.messages)) db

module _ (rt : Runtime) (env : AgentRuntime) where
  -- One call in the node of the read-only tools, among which is `escalate_to_bo_user`.
  abbrev pub read_call : ToolCall → Db → Content × Db
  read_call call db =
      let (r, db') = with_session (invoke_escalate rt env call.args) db in
      if text_eq call.name "escalate_to_bo_user"
      then (content_of r, db')
      else (Content.text (env.read_tool call db), db)

  abbrev pub read_calls : List ToolCall → BoAgentState → Db → BoAgentState × Db
  read_calls [] s db = (s, db)
  read_calls (call ∷ calls) s db =
      let (content, db') = read_call call db in
      read_calls calls (say (AgentMessage.tool content call.id) s) db'

  abbrev returned : BoAgentState × Db → Result BoAgentState × Db
  returned (s, db) = (ok s, db)

  -- What a node does. The node `model_router` chooses the language model.
  unfoldable pub act : Reply → Node → BoAgentState → Db → Result BoAgentState × Db
  act reply Node.model_router s db = (ok s, db)
  act reply Node.gather_context s db = (ok (gather_context_node s db), db)
  act reply Node.agent s db = (ok (llm_invoke reply s), db)
  act reply Node.rag_context s db = (ok (rag_context_node env s), db)
  act reply Node.deep_investigation s db = (ok (llm_invoke reply s), db)
  act reply Node.read_tools s db = returned (read_calls (last_calls s.messages) s db)
  act reply Node.ag01_handler s db = (ok (ag01_handler_node s), db)
  act reply Node.lookup_ssi s db = (ok (lookup_ssi_node s db), db)
  act reply Node.prepare_register_ssi s db = (ok (prepare_register_ssi_node s), db)
  act reply Node.ssi_not_found_escalate s db = ssi_not_found_escalate_node rt env s db
  act reply Node.be01_handler s db = be01_handler_node rt env s db
  act reply Node.fo_side_handler s db = fo_side_handler_node rt env s db
  act reply Node.reactivate_counterparty_node s db =
      hitl_node "reactivate_counterparty" (invoke_reactivate rt env) s db
  act reply Node.register_ssi_node s db = hitl_node "register_ssi" (invoke_register rt env) s db
  act reply Node.send_back_to_fo_node s db =
      hitl_node "send_back_to_fo" (invoke_sendback rt env) s db
  act reply Node.reactivate_counterparty_node_di s db =
      hitl_node "reactivate_counterparty" (invoke_reactivate rt env) s db
  act reply Node.register_ssi_node_di s db = hitl_node "register_ssi" (invoke_register rt env) s db
  act reply Node.update_ssi_node_di s db = hitl_node "update_ssi" (invoke_update rt env) s db
  act reply Node.send_back_to_fo_node_di s db =
      hitl_node "send_back_to_fo" (invoke_sendback rt env) s db
  act reply Node.finish s db = (err type_error, db)
