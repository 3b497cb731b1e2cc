-- ===== src/Agents/Fo/Approvals.antt =====
-- How often a run of the graph of src/infrastructure/fo_agent.py writes with the operator's
-- approval.
use deep_agent_test.Prelude.{
  ℕ, ◌≤◌, ◌≡◌, refl, sym, ◌∙◌, String, Bool, true, false, Option, none, some, List, [], ◌∷◌, arith,
  find_first, inl, inr, Bool-cases,
}
use deep_agent_test.Result.{ok}
use deep_agent_test.Domain.Entities.{TradeModel}
use deep_agent_test.Infrastructure.Db.{Db, Exec}
use deep_agent_test.Infrastructure.Runtime.{Runtime}
use deep_agent_test.Infrastructure.TradeRepository.{Fields}
use deep_agent_test.Infrastructure.Tools.{ToolResult}
use deep_agent_test.Agents.{Reply, ToolCall, AgentRuntime, AgentMessage, last_calls, is_named}
use deep_agent_test.Agents.Fo.{
  FoAgentState, Node, is_hitl, next, route_after_agent, say, gather, read_call, read_calls,
  run_call, invoke_amend, invoke_cancel, act,
}
use deep_agent_test.Agents.Fo.Graph.{
  Config, Steps, none_yet, runs, approved, rejected, start, rejected_call,
}

-- Where a run may be once an action was taken.
abbrev is_closing : Node → Bool
is_closing Node.agent = true
is_closing Node.finish = true
is_closing _ = false

record Approvals (n : ℕ) (c : Config) : Type 0 where
  at_most_one : n ≤ 1
  none_open : c.state.action_taken ≡ false → n ≡ 0
  closing : c.state.action_taken ≡ true → is_closing c.node ≡ true

closed_route : (calls : List ToolCall) → is_closing (route_after_agent calls true) ≡ true
unfolding route_after_agent
closed_route [] = refl
closed_route (c ∷ cs) = refl

hitl_open : (node : Node) → is_hitl node ≡ true → is_closing node ≡ false
hitl_open _ h = ground arith

hitl_closing :
    (node : Node) (t : FoAgentState) → is_hitl node ≡ true → is_closing (next node t) ≡ true
hitl_closing Node.create_amend_event_node t h = refl
hitl_closing Node.create_cancel_event_node t h = refl
hitl_closing _ t h = cc

gather-action_taken :
    (s : FoAgentState) (trade : Option TradeModel) → (gather s trade).action_taken ≡ s.action_taken
gather-action_taken s none = refl
gather-action_taken s (some trade) = refl

rejected_call-action_taken :
    (s t : FoAgentState) (call : Option ToolCall)
    → rejected_call s call ≡ some t
    → t.action_taken ≡ s.action_taken
rejected_call-action_taken s t none e = cc
rejected_call-action_taken s t (some call) e = ground arith

run_call-action_taken :
    (invoke : Fields → Exec ToolResult) (s t : FoAgentState) (call : Option ToolCall) (db db' : Db)
    → run_call invoke s call db ≡ (ok t, db')
    → t.action_taken ≡ true
run_call-action_taken invoke s t none db db' e = cc
run_call-action_taken invoke s t (some call) db db' e = cc

module _ (rt : Runtime) (env : AgentRuntime) where
  read-action_taken :
      (calls : List ToolCall) (s : FoAgentState) (db : Db)
      → (read_calls rt env calls s db).0.action_taken ≡ s.action_taken
  read-action_taken [] s db = refl
  read-action_taken (call ∷ calls) s db =
      read-action_taken calls (say (AgentMessage.tool (read_call rt env call db).0 call.id) s)
        (read_call rt env call db).1

  -- A node that awaits no approval leaves `action_taken` as it was.
  act-action_taken :
      (reply : Reply) (node : Node) (s t : FoAgentState) (db db' : Db)
      → is_hitl node ≡ false
      → act rt env reply node s db ≡ (ok t, db')
      → t.action_taken ≡ s.action_taken
  unfolding act
  act-action_taken reply Node.model_router s t db db' h e = cc
  act-action_taken reply Node.gather_context s t db db' h e = ground (arith, gather-action_taken s)
  act-action_taken reply Node.agent s t db db' h e = ground arith
  act-action_taken reply Node.read_tools s t db db' h e =
      ground (arith, read-action_taken (last_calls s.messages) s db)
  act-action_taken reply _ s t db db' h e = cc

  run_closing :
      (node : Node) (s t : FoAgentState)
      → is_hitl node ≡ false
      → (s.action_taken ≡ true → is_closing node ≡ true)
      → t.action_taken ≡ s.action_taken
      → t.action_taken ≡ true
      → is_closing (next node t) ≡ true
  run_closing Node.agent s t h k e a = rw a (closed_route _)
  run_closing Node.finish s t h k e a = refl
  run_closing _ s t h k e a = ground (arith, k)

  hitl-action_taken :
      (reply : Reply) (node : Node) (s t : FoAgentState) (db db' : Db)
      → is_hitl node ≡ true
      → act rt env reply node s db ≡ (ok t, db')
      → t.action_taken ≡ true
  unfolding act
  hitl-action_taken reply Node.create_amend_event_node s t db db' h e =
      run_call-action_taken (invoke_amend rt env) s t
        (find_first (is_named "create_amend_event") (last_calls s.messages)) db db' e
  hitl-action_taken reply Node.create_cancel_event_node s t db db' h e =
      run_call-action_taken (invoke_cancel rt env) s t
        (find_first (is_named "create_cancel_event") (last_calls s.messages)) db db' e
  hitl-action_taken reply _ s t db db' h e = cc

  bound_of : (n : ℕ) (c d : Config) → Approvals 0 c → Steps rt env n c d → Approvals n d
  bound_of n c d h none_yet = h
  bound_of n c d h (runs {d = m} {s = s} reply before p e) =
      let ih = bound_of n c m h before in
      let same = act-action_taken reply m.node m.state s _ _ p e in
      record {
        at_most_one = ih.at_most_one;
        none_open = λ z. ih.none_open (sym same ∙ z);
        closing = run_closing m.node m.state s p ih.closing same;
      }
  bound_of n c d h (approved {d = m} reply before p e) =
      let ih = bound_of _ c m h before in
      record {
        at_most_one = elim (Bool-cases m.state.action_taken) [
          | inl taken ↦ ground (arith, hitl_open m.node p, ih.closing taken)
          | inr open_ ↦ ground (arith, ih.none_open open_)
        ];
        none_open = λ z. ground (arith, hitl-action_taken reply _ _ _ _ _ p e);
        closing = λ _. hitl_closing _ _ p;
      }
  bound_of n c d h (rejected before p e) =
      let ih = bound_of n c _ h before in
      record {
        at_most_one = ih.at_most_one;
        none_open = λ z. ih.none_open (sym (rejected_call-action_taken _ _ _ e) ∙ z);
        closing = λ _. hitl_closing _ _ p;
      }

  -- In a run of the Front-Office agent that `start` began the operator approves at most one
  -- amendment or cancellation, whatever the language model answers and however many it asks for.
  pub one_event_approval :
      (n : ℕ) (trade_id error_context : String) (db : Db) (c : Config)
      → Steps rt env n (start trade_id error_context db) c
      → n ≤ 1
  one_event_approval n trade_id error_context db c steps =
      let start_open : Approvals 0 (start trade_id error_context db) = record {
        at_most_one = omega arith;
        none_open = λ _. refl;
        closing = λ h. cc;
      } in
      (bound_of n _ c start_open steps).at_most_one
