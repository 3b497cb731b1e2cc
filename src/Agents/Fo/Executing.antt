-- ===== src/Agents/Fo/Executing.antt =====
-- What the nodes of src/infrastructure/fo_agent.py that wait for the operator execute, by the name
-- of the tool call.
use deep_agent_test.Prelude.{
  ◌≡◌, ap, String, true, Option, some, find_first, find_first_holds, eq_iff,
}
use deep_agent_test.Result.{ok}
use deep_agent_test.Infrastructure.Db.{Db, Exec, with_session, lift, ◌>>=◌}
use deep_agent_test.Infrastructure.Runtime.{Runtime}
use deep_agent_test.Infrastructure.TradeRepository.{Fields}
use deep_agent_test.Infrastructure.Tools.{ToolResult, create_amend_event, create_cancel_event}
use deep_agent_test.Agents.{
  Reply, ToolCall, AgentMessage, AgentRuntime, content_of, last_calls, is_named, required,
}
use deep_agent_test.Agents.Fo.{FoAgentState, Node, is_hitl, say}
use deep_agent_test.Agents.Fo.{act, run_call, invoke_amend, invoke_cancel}

-- The tool call that a node looks for.
abbrev pub tool_of : Node → String
tool_of Node.create_amend_event_node = "create_amend_event"
tool_of Node.create_cancel_event_node = "create_cancel_event"
tool_of _ = ""

module _ (rt : Runtime) (env : AgentRuntime) where
  -- A call of that name stands for the run of that tool on the arguments that its schema reads.
  pub data IsToolOf (call : ToolCall) : (Fields → Exec ToolResult) → Type 0 where
    amends :
        call.name ≡ "create_amend_event"
        → IsToolOf call λ args. do
          trade_id ← lift (required env "trade_id" args)
          reason ← lift (required env "reason" args)
          amended_fields ← lift (required env "amended_fields" args)
          create_amend_event rt env.json_object trade_id reason amended_fields
    cancels :
        call.name ≡ "create_cancel_event"
        → IsToolOf call λ args. do
          trade_id ← lift (required env "trade_id" args)
          reason ← lift (required env "reason" args)
          create_cancel_event rt trade_id reason

  -- The node runs the tool that the call names, with the arguments of the call, in a session of its
  -- own, appends the answer as that call's, and notes that an action was taken.
  pub record RunsCall (reply : Reply) (node : Node) (s : FoAgentState) (db : Db) (call : ToolCall)
      : Type 0 where
    pub invoke : Fields → Exec ToolResult
    pub by_name : IsToolOf call invoke
    pub ran : act rt env reply node s db ≡ (
      ok (
          say
            (AgentMessage.tool (content_of (with_session (invoke call.args) db).0) call.id)
            (record s { action_taken = true })),
      (with_session (invoke call.args) db).1,
    )

  called :
      (name : String) (s : FoAgentState) (call : ToolCall)
      → find_first (is_named name) (last_calls s.messages) ≡ some call
      → call.name ≡ name
  called name s call found =
      (eq_iff call.name name).0
        (find_first_holds (is_named name) call (last_calls s.messages) found)

  pub act-RunsCall :
      (reply : Reply) (node : Node) (s : FoAgentState) (db : Db) (call : ToolCall)
      → is_hitl node ≡ true
      → find_first (is_named (tool_of node)) (last_calls s.messages) ≡ some call
      → RunsCall reply node s db call
  unfolding act invoke_amend invoke_cancel
  act-RunsCall reply Node.create_amend_event_node s db call h found = record {
    invoke = invoke_amend rt env;
    by_name = amends (called "create_amend_event" s call found);
    ran = ap (λ (o : Option ToolCall). run_call (invoke_amend rt env) s o db) found;
  }
  act-RunsCall reply Node.create_cancel_event_node s db call h found = record {
    invoke = invoke_cancel rt env;
    by_name = cancels (called "create_cancel_event" s call found);
    ran = ap (λ (o : Option ToolCall). run_call (invoke_cancel rt env) s o db) found;
  }
  act-RunsCall reply _ s db call h found = cc
