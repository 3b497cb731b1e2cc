-- ===== src/Agents/Bo/Executing.antt =====
-- What the nodes of src/infrastructure/bo_agent.py that wait for the operator execute, by the name
-- of the tool call.
use deep_agent_test.Prelude.{
  ◌≡◌, ap, String, true, Option, some, find_first, find_first_holds, eq_iff,
}
use deep_agent_test.Result.{ok}
use deep_agent_test.Infrastructure.Db.{Db, Exec, with_session, lift, ◌>>=◌}
use deep_agent_test.Infrastructure.Runtime.{Runtime}
use deep_agent_test.Infrastructure.TradeRepository.{Fields}
use deep_agent_test.Infrastructure.Tools.{
  ToolResult, send_back_to_fo, register_ssi, reactivate_counterparty, update_ssi,
}
use deep_agent_test.Agents.{
  Reply, ToolCall, AgentMessage, AgentRuntime, content_of, last_calls, is_named, required, optional,
}
use deep_agent_test.Agents.Bo.{BoAgentState, Node, is_hitl, say}
use deep_agent_test.Agents.Bo.Nodes.{
  act, run_call, invoke_register, invoke_reactivate, invoke_update, invoke_sendback,
}

-- The tool call that a node looks for.
abbrev pub tool_of : Node → String
tool_of Node.register_ssi_node = "register_ssi"
tool_of Node.register_ssi_node_di = "register_ssi"
tool_of Node.reactivate_counterparty_node = "reactivate_counterparty"
tool_of Node.reactivate_counterparty_node_di = "reactivate_counterparty"
tool_of Node.update_ssi_node_di = "update_ssi"
tool_of Node.send_back_to_fo_node = "send_back_to_fo"
tool_of Node.send_back_to_fo_node_di = "send_back_to_fo"
tool_of _ = ""

module _ (rt : Runtime) (env : AgentRuntime) where
  -- A call of that name stands for the run of that tool on the arguments that its schema reads.
  pub data IsToolOf (call : ToolCall) : (Fields → Exec ToolResult) → Type 0 where
    registers :
        call.name ≡ "register_ssi"
        → IsToolOf call λ args. do
          lei ← lift (required env "lei" args)
          currency ← lift (required env "currency" args)
          bic ← lift (required env "bic" args)
          account ← lift (required env "account" args)
          iban ← lift (optional env "iban" args)
          register_ssi rt lei currency bic account iban
    reactivates :
        call.name ≡ "reactivate_counterparty"
        → IsToolOf call
            λ args. do lei ← lift (required env "lei" args); reactivate_counterparty rt lei
    updates :
        call.name ≡ "update_ssi"
        → IsToolOf call λ args. do
          lei ← lift (required env "lei" args)
          currency ← lift (required env "currency" args)
          bic ← lift (optional env "bic" args)
          account ← lift (optional env "account" args)
          iban ← lift (optional env "iban" args)
          update_ssi rt lei currency bic account iban
    sends_back :
        call.name ≡ "send_back_to_fo"
        → IsToolOf call λ args. do
          trade_id ← lift (required env "trade_id" args)
          reason ← lift (required env "reason" args)
          send_back_to_fo rt trade_id reason

  -- The node runs the tool that the call names, with the arguments of the call, in a session of its
  -- own, appends the answer as that call's, and notes that an action was taken.
  pub record RunsCall (reply : Reply) (node : Node) (s : BoAgentState) (db : Db) (call : ToolCall)
      : Type 0 where
    pub invoke : Fields → Exec ToolResult
    pub by_name : IsToolOf call invoke
    pub ran : act rt env reply node s db ≡ (
      ok (
          say
            (AgentMessage.tool (content_of (with_session (invoke call.args) db).0) call.id)
            (record s { action_taken = true })),
      (with_session (invoke call.args) db).1,
    )

  called :
      (name : String) (s : BoAgentState) (call : ToolCall)
      → find_first (is_named name) (last_calls s.messages) ≡ some call
      → call.name ≡ name
  called name s call found =
      (eq_iff call.name name).0
        (find_first_holds (is_named name) call (last_calls s.messages) found)

  pub act-RunsCall :
      (reply : Reply) (node : Node) (s : BoAgentState) (db : Db) (call : ToolCall)
      → is_hitl node ≡ true
      → find_first (is_named (tool_of node)) (last_calls s.messages) ≡ some call
      → RunsCall reply node s db call
  unfolding act invoke_register invoke_reactivate invoke_update invoke_sendback
  act-RunsCall reply Node.register_ssi_node s db call h found = record {
    invoke = invoke_register rt env;
    by_name = registers (called "register_ssi" s call found);
    ran = ap (λ (o : Option ToolCall). run_call (invoke_register rt env) s o db) found;
  }
  act-RunsCall reply Node.register_ssi_node_di s db call h found = record {
    invoke = invoke_register rt env;
    by_name = registers (called "register_ssi" s call found);
    ran = ap (λ (o : Option ToolCall). run_call (invoke_register rt env) s o db) found;
  }
  act-RunsCall reply Node.reactivate_counterparty_node s db call h found = record {
    invoke = invoke_reactivate rt env;
    by_name = reactivates (called "reactivate_counterparty" s call found);
    ran = ap (λ (o : Option ToolCall). run_call (invoke_reactivate rt env) s o db) found;
  }
  act-RunsCall reply Node.reactivate_counterparty_node_di s db call h found = record {
    invoke = invoke_reactivate rt env;
    by_name = reactivates (called "reactivate_counterparty" s call found);
    ran = ap (λ (o : Option ToolCall). run_call (invoke_reactivate rt env) s o db) found;
  }
  act-RunsCall reply Node.update_ssi_node_di s db call h found = record {
    invoke = invoke_update rt env;
    by_name = updates (called "update_ssi" s call found);
    ran = ap (λ (o : Option ToolCall). run_call (invoke_update rt env) s o db) found;
  }
  act-RunsCall reply Node.send_back_to_fo_node s db call h found = record {
    invoke = invoke_sendback rt env;
    by_name = sends_back (called "send_back_to_fo" s call found);
    ran = ap (λ (o : Option ToolCall). run_call (invoke_sendback rt env) s o db) found;
  }
  act-RunsCall reply Node.send_back_to_fo_node_di s db call h found = record {
    invoke = invoke_sendback rt env;
    by_name = sends_back (called "send_back_to_fo" s call found);
    ran = ap (λ (o : Option ToolCall). run_call (invoke_sendback rt env) s o db) found;
  }
  act-RunsCall reply _ s db call h found = cc
