-- ===== src/Agents/Bo/Validity.antt =====
-- The runs of the graph of src/infrastructure/bo_agent.py and the invariant of the database.
use deep_agent_test.Prelude.{ℕ, ◌≡◌, true, Option, none, some, find_first}
use mathlib.Core.Path.{subst}
use deep_agent_test.Result.{Result}
use deep_agent_test.Infrastructure.Db.{Db, Exec}
use deep_agent_test.Infrastructure.Db.Keeps.{Keeps, On, keeps_rules, Keeps-with_session}
use deep_agent_test.Infrastructure.Runtime.{Runtime}
use deep_agent_test.Infrastructure.TradeRepository.{Fields}
use deep_agent_test.Infrastructure.Validity.{IsValid}
use deep_agent_test.Infrastructure.Tools.{ToolResult}
use deep_agent_test.Infrastructure.Tools.Keeping.{
  send_back_to_fo-IsValid, escalate_to_bo_user-IsValid, register_ssi-IsValid,
  reactivate_counterparty-IsValid, update_ssi-IsValid,
}
use deep_agent_test.Agents.{Reply, ToolCall, AgentRuntime, last_calls, is_named}
use deep_agent_test.Agents.Bo.{BoAgentState, Node, is_hitl}
use deep_agent_test.Agents.Bo.Nodes.{
  act, run_call, invoke_register, invoke_reactivate, invoke_update, invoke_sendback,
}
use deep_agent_test.Agents.Bo.Graph.{Config, Steps, none_yet, runs, approved, rejected}
use deep_agent_test.Agents.Bo.Unapproved.{act-keeps}

module _ (rt : Runtime) (env : AgentRuntime) where
  invoke_register-IsValid : (args : Fields) → Keeps (On IsValid) (invoke_register rt env args)
  unfolding invoke_register
  invoke_register-IsValid args = search (keeps_rules, register_ssi-IsValid) depth 20

  invoke_reactivate-IsValid : (args : Fields) → Keeps (On IsValid) (invoke_reactivate rt env args)
  unfolding invoke_reactivate
  invoke_reactivate-IsValid args = search (keeps_rules, reactivate_counterparty-IsValid) depth 20

  invoke_update-IsValid : (args : Fields) → Keeps (On IsValid) (invoke_update rt env args)
  unfolding invoke_update
  invoke_update-IsValid args = search (keeps_rules, update_ssi-IsValid) depth 20

  invoke_sendback-IsValid : (args : Fields) → Keeps (On IsValid) (invoke_sendback rt env args)
  unfolding invoke_sendback
  invoke_sendback-IsValid args = search (keeps_rules, send_back_to_fo-IsValid) depth 20

  run_call-IsValid :
      (invoke : Fields → Exec ToolResult) (s : BoAgentState) (call : Option ToolCall) (db : Db)
      → ((args : Fields) → Keeps (On IsValid) (invoke args))
      → IsValid db
      → IsValid (run_call invoke s call db).1
  run_call-IsValid invoke s none db k h = h
  run_call-IsValid invoke s (some call) db k h =
      Keeps-with_session (invoke call.args) db (k call.args) h

  hitl-IsValid :
      (reply : Reply) (node : Node) (s : BoAgentState) (db : Db)
      → is_hitl node ≡ true
      → IsValid db
      → IsValid (act rt env reply node s db).1
  unfolding act
  hitl-IsValid reply Node.reactivate_counterparty_node s db h q =
      run_call-IsValid (invoke_reactivate rt env) s
        (find_first (is_named "reactivate_counterparty") (last_calls s.messages)) db
        invoke_reactivate-IsValid q
  hitl-IsValid reply Node.register_ssi_node s db h q =
      run_call-IsValid (invoke_register rt env) s
        (find_first (is_named "register_ssi") (last_calls s.messages)) db invoke_register-IsValid q
  hitl-IsValid reply Node.send_back_to_fo_node s db h q =
      run_call-IsValid (invoke_sendback rt env) s
        (find_first (is_named "send_back_to_fo") (last_calls s.messages)) db invoke_sendback-IsValid
        q
  hitl-IsValid reply Node.reactivate_counterparty_node_di s db h q =
      run_call-IsValid (invoke_reactivate rt env) s
        (find_first (is_named "reactivate_counterparty") (last_calls s.messages)) db
        invoke_reactivate-IsValid q
  hitl-IsValid reply Node.register_ssi_node_di s db h q =
      run_call-IsValid (invoke_register rt env) s
        (find_first (is_named "register_ssi") (last_calls s.messages)) db invoke_register-IsValid q
  hitl-IsValid reply Node.update_ssi_node_di s db h q =
      run_call-IsValid (invoke_update rt env) s
        (find_first (is_named "update_ssi") (last_calls s.messages)) db invoke_update-IsValid q
  hitl-IsValid reply Node.send_back_to_fo_node_di s db h q =
      run_call-IsValid (invoke_sendback rt env) s
        (find_first (is_named "send_back_to_fo") (last_calls s.messages)) db invoke_sendback-IsValid
        q
  hitl-IsValid reply _ s db h q = cc

  -- Every run of the Back-Office agent, with whatever answers of the language model, approvals and
  -- rejections, leaves a database valid that was valid: versions and events distinct, and at most
  -- one current version and one event in flight for a trade.
  pub Steps-IsValid : (n : ℕ) (c d : Config) → Steps rt env n c d → IsValid c.db → IsValid d.db
  Steps-IsValid n c d none_yet q = q
  Steps-IsValid n c d (runs {d = m} reply before p e) q =
      subst (λ (x : Result BoAgentState × Db). IsValid x.1) e
        (act-keeps rt env IsValid (escalate_to_bo_user-IsValid rt) reply m.node m.state m.db p
          (Steps-IsValid n c m before q))
  Steps-IsValid n c d (approved {n = k} {d = m} reply before p e) q =
      subst (λ (x : Result BoAgentState × Db). IsValid x.1) e
        (hitl-IsValid reply m.node m.state m.db p (Steps-IsValid k c m before q))
  Steps-IsValid n c d (rejected before p e) q = Steps-IsValid n c _ before q
