-- ===== src/Agents/Fo/Unapproved.antt =====
-- What a run of the graph of src/infrastructure/fo_agent.py writes without an approval.
use deep_agent_test.Prelude.{◌≡◌, false, List, [], ◌∷◌, text_eq, inl, inr, Bool-cases}
use mathlib.Core.Path.{subst}
use deep_agent_test.Result.{Result}
use deep_agent_test.Infrastructure.Db.{Db}
use deep_agent_test.Infrastructure.Db.Keeps.{Keeps, On, keeps_rules, Keeps-with_session}
use deep_agent_test.Infrastructure.Runtime.{Runtime}
use deep_agent_test.Infrastructure.TradeRepository.{Fields}
use deep_agent_test.Infrastructure.Validity.{IsValid}
use deep_agent_test.Infrastructure.Tools.Keeping.{
  escalate_to_fo_user-IsValid, provide_explanation-IsValid,
}
use deep_agent_test.Agents.{Reply, ToolCall, AgentRuntime, AgentMessage, last_calls}
use deep_agent_test.Agents.Fo.{
  FoAgentState, Node, is_hitl, say, act, read_call, read_calls, invoke_explain, invoke_escalate,
}
use deep_agent_test.Agents.Fo.Graph.{Config, Steps, none_yet, runs, rejected}

module _ (rt : Runtime) (env : AgentRuntime) where
  invoke_explain-IsValid : (args : Fields) → Keeps (On IsValid) (invoke_explain rt env args)
  unfolding invoke_explain
  invoke_explain-IsValid args = search (keeps_rules, provide_explanation-IsValid rt) depth 20

  invoke_escalate-IsValid : (args : Fields) → Keeps (On IsValid) (invoke_escalate rt env args)
  unfolding invoke_escalate
  invoke_escalate-IsValid args = search (keeps_rules, escalate_to_fo_user-IsValid rt) depth 20

  read_call-IsValid :
      (call : ToolCall) (db : Db) → IsValid db → IsValid (read_call rt env call db).1
  read_call-IsValid call db h =
      let explained =
        Keeps-with_session (invoke_explain rt env call.args) db (invoke_explain-IsValid call.args)
          h in
      let escalated =
        Keeps-with_session (invoke_escalate rt env call.args) db (invoke_escalate-IsValid call.args)
          h in
      elim (Bool-cases (text_eq call.name "provide_explanation")) [
        | inl e ↦ rw e explained
        | inr e ↦ elim (Bool-cases (text_eq call.name "escalate_to_fo_user")) [
          | inl e' ↦ rw e (rw e' escalated)
          | inr e' ↦ rw e (rw e' h)
        ]
      ]

  read_calls-IsValid :
      (calls : List ToolCall) (s : FoAgentState) (db : Db)
      → IsValid db
      → IsValid (read_calls rt env calls s db).1
  read_calls-IsValid [] s db h = h
  read_calls-IsValid (call ∷ calls) s db h =
      read_calls-IsValid calls (say (AgentMessage.tool (read_call rt env call db).0 call.id) s)
        (read_call rt env call db).1 (read_call-IsValid call db h)

  act-IsValid :
      (reply : Reply) (node : Node) (s : FoAgentState) (db : Db)
      → is_hitl node ≡ false
      → IsValid db
      → IsValid (act rt env reply node s db).1
  unfolding act
  act-IsValid reply Node.read_tools s db h q = read_calls-IsValid (last_calls s.messages) s db q
  act-IsValid reply Node.model_router s db h q = q
  act-IsValid reply Node.gather_context s db h q = q
  act-IsValid reply Node.agent s db h q = q
  act-IsValid reply Node.finish s db h q = q
  act-IsValid reply _ s db h q = cc

  -- A run of the Front-Office agent leaves a database valid that was valid, as long as the
  -- operator has approved nothing: versions and events distinct, and at most one current version
  -- and one event in flight for a trade.
  pub unapproved-IsValid : (c d : Config) → Steps rt env 0 c d → IsValid c.db → IsValid d.db
  unapproved-IsValid c d none_yet q = q
  unapproved-IsValid c d (runs {d = m} reply before p e) q =
      subst (λ (x : Result FoAgentState × Db). IsValid x.1) e
        (act-IsValid reply m.node m.state m.db p (unapproved-IsValid c m before q))
  unapproved-IsValid c d (rejected before p e) q = unapproved-IsValid c _ before q
