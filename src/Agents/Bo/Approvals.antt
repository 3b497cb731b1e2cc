-- ===== src/Agents/Bo/Approvals.antt =====
-- How often a run of the graph of src/infrastructure/bo_agent.py writes with the operator's
-- approval.
use deep_agent_test.Prelude.{
  ℕ, ◌≤◌, ◌≡◌, refl, String, Bool, true, false, Option, none, some, List, [], ◌∷◌, arith, ◌==◌,
  find_first, inl, inr, sym, ◌∙◌, ap, Bool-cases,
}
use deep_agent_test.Result.{Result, ok, err}
use deep_agent_test.Infrastructure.Db.{Db, Exec, gets, ◌>>=◌}
use deep_agent_test.Infrastructure.Runtime.{Runtime}
use deep_agent_test.Agents.{Reply, ToolCall, AgentRuntime, AgentMessage, last_calls, is_named}
use deep_agent_test.Agents.Bo.{BoAgentState, Node, is_hitl, next, route_after_agent, say}
use deep_agent_test.Agents.Bo.Nodes.{
  act, run_call, invoke_reactivate, invoke_register, invoke_sendback, invoke_update, read_call,
  read_calls,
}
use deep_agent_test.Agents.Bo.Handlers.{
  gather, with_similar, escalated_state, escalate, ssi_not_found_escalate_node, be01_handler_node,
  fo_side_handler_node, ag01_handler_node, lookup_ssi_node, prepare_register_ssi_node,
}
use deep_agent_test.Domain.Entities.{TradeModel}
use deep_agent_test.Infrastructure.TradeRepository.{Fields}
use deep_agent_test.Infrastructure.Tools.{ToolResult}
use deep_agent_test.Agents.Bo.Graph.{
  Config, Steps, none_yet, runs, approved, rejected, start, rejected_call,
}

-- Where a run may be once an action was taken.
abbrev is_closing : Node → Bool
is_closing Node.agent = true
is_closing Node.deep_investigation = true
is_closing Node.finish = true
is_closing _ = false

record Approvals (n : ℕ) (c : Config) : Type 0 where
  at_most_one : n ≤ 1
  none_open : c.state.action_taken ≡ false → n ≡ 0
  closing : c.state.action_taken ≡ true → is_closing c.node ≡ true

closed_route : (calls : List ToolCall) → is_closing (route_after_agent calls true) ≡ true
unfolding route_after_agent
closed_route [] = refl
closed_route (c ∷ cs) = refl

module _ (rt : Runtime) (env : AgentRuntime) where
  gather-action_taken :
      (s : BoAgentState) (trade : Option TradeModel)
      → (gather s trade).action_taken ≡ s.action_taken
  gather-action_taken s none = refl
  gather-action_taken s (some trade) = refl

  read-action_taken :
      (calls : List ToolCall) (s : BoAgentState) (db : Db)
      → (read_calls rt env calls s db).0.action_taken ≡ s.action_taken
  read-action_taken [] s db = refl
  read-action_taken (call ∷ calls) s db =
      read-action_taken calls (say (AgentMessage.tool (read_call rt env call db).0 call.id) s)
        (read_call rt env call db).1

  -- What a node leaves in `action_taken` and where the run goes from it.
  run_closing :
      (reply : Reply) (node : Node) (s t : BoAgentState) (db db' : Db)
      → is_hitl node ≡ false
      → (s.action_taken ≡ true → is_closing node ≡ true)
      → act rt env reply node s db ≡ (ok t, db')
      → t.action_taken ≡ true
      → is_closing (next node t) ≡ true
  unfolding act ag01_handler_node lookup_ssi_node prepare_register_ssi_node gets ◌>>=◌
  run_closing reply Node.model_router s t db db' h k e a = ground (arith, k)
  run_closing reply Node.gather_context s t db db' h k e a =
      ground (arith, k, gather-action_taken s)
  run_closing reply Node.agent s t db db' h k e a = rw a (closed_route _)
  run_closing reply Node.rag_context s t db db' h k e a = refl
  run_closing reply Node.deep_investigation s t db db' h k e a = rw a (closed_route _)
  run_closing reply Node.read_tools s t db db' h k e a = refl
  run_closing reply Node.ag01_handler s t db db' h k e a = ground (arith, k)
  run_closing reply Node.lookup_ssi s t db db' h k e a = ground (arith, k)
  run_closing reply Node.prepare_register_ssi s t db db' h k e a = ground (arith, k)
  run_closing reply Node.ssi_not_found_escalate s t db db' h k e a = refl
  run_closing reply Node.be01_handler s t db db' h k e a = refl
  run_closing reply Node.fo_side_handler s t db db' h k e a = rw a refl
  run_closing reply Node.finish s t db db' h k e a = refl
  run_closing reply Node.reactivate_counterparty_node s t db db' h k e a = refl
  run_closing reply Node.register_ssi_node s t db db' h k e a = refl
  run_closing reply Node.send_back_to_fo_node s t db db' h k e a = refl
  run_closing reply Node.reactivate_counterparty_node_di s t db db' h k e a = refl
  run_closing reply Node.register_ssi_node_di s t db db' h k e a = refl
  run_closing reply Node.update_ssi_node_di s t db db' h k e a = refl
  run_closing reply Node.send_back_to_fo_node_di s t db db' h k e a = refl

  run_call-action_taken :
      (invoke : Fields → Exec ToolResult) (s t : BoAgentState) (call : Option ToolCall)
      (db db' : Db)
      → run_call invoke s call db ≡ (ok t, db')
      → t.action_taken ≡ true
  run_call-action_taken invoke s t none db db' e = cc
  run_call-action_taken invoke s t (some call) db db' e = cc

  hitl_open : (node : Node) → is_hitl node ≡ true → is_closing node ≡ false
  hitl_open _ h = ground arith

  -- An approved node sets `action_taken`, and the run goes to a node of a language model.
  hitl_closing :
      (node : Node) (t : BoAgentState) → is_hitl node ≡ true → is_closing (next node t) ≡ true
  hitl_closing Node.reactivate_counterparty_node t h = refl
  hitl_closing Node.register_ssi_node t h = refl
  hitl_closing Node.send_back_to_fo_node t h = refl
  hitl_closing Node.reactivate_counterparty_node_di t h = refl
  hitl_closing Node.register_ssi_node_di t h = refl
  hitl_closing Node.update_ssi_node_di t h = refl
  hitl_closing Node.send_back_to_fo_node_di t h = refl
  hitl_closing _ t h = cc

  hitl-action_taken :
      (reply : Reply) (node : Node) (s t : BoAgentState) (db db' : Db)
      → is_hitl node ≡ true
      → act rt env reply node s db ≡ (ok t, db')
      → t.action_taken ≡ true
  unfolding act
  hitl-action_taken reply Node.reactivate_counterparty_node s t db db' h e =
      run_call-action_taken (invoke_reactivate rt env) s t
        (find_first (is_named "reactivate_counterparty") (last_calls s.messages)) db db' e
  hitl-action_taken reply Node.register_ssi_node s t db db' h e =
      run_call-action_taken (invoke_register rt env) s t
        (find_first (is_named "register_ssi") (last_calls s.messages)) db db' e
  hitl-action_taken reply Node.send_back_to_fo_node s t db db' h e =
      run_call-action_taken (invoke_sendback rt env) s t
        (find_first (is_named "send_back_to_fo") (last_calls s.messages)) db db' e
  hitl-action_taken reply Node.reactivate_counterparty_node_di s t db db' h e =
      run_call-action_taken (invoke_reactivate rt env) s t
        (find_first (is_named "reactivate_counterparty") (last_calls s.messages)) db db' e
  hitl-action_taken reply Node.register_ssi_node_di s t db db' h e =
      run_call-action_taken (invoke_register rt env) s t
        (find_first (is_named "register_ssi") (last_calls s.messages)) db db' e
  hitl-action_taken reply Node.update_ssi_node_di s t db db' h e =
      run_call-action_taken (invoke_update rt env) s t
        (find_first (is_named "update_ssi") (last_calls s.messages)) db db' e
  hitl-action_taken reply Node.send_back_to_fo_node_di s t db db' h e =
      run_call-action_taken (invoke_sendback rt env) s t
        (find_first (is_named "send_back_to_fo") (last_calls s.messages)) db db' e
  hitl-action_taken reply _ s t db db' h e = cc

  escalated-action_taken :
      (s t : BoAgentState) (r : Result ToolResult)
      → escalated_state rt s r ≡ ok t
      → t.action_taken ≡ true
  escalated-action_taken s t (ok r) e = cc
  escalated-action_taken s t (err x) e = cc

  similar-action_taken :
      (s : BoAgentState) (cases : List String)
      → (with_similar env s cases).action_taken ≡ s.action_taken
  similar-action_taken s [] = refl
  similar-action_taken s (r ∷ rs) = refl

  fo_side-action_taken :
      (s t : BoAgentState) (db db' : Db)
      → fo_side_handler_node rt env s db ≡ (ok t, db')
      → t.action_taken ≡ false
      → s.action_taken ≡ false
  unfolding fo_side_handler_node escalate
  fo_side-action_taken s t db db' e a = elim (Bool-cases (s.sendback_count == 0)) [
    | inl z ↦ ground arith
    | inr z ↦ ground (arith, escalated-action_taken s t)
  ]

  -- No node resets `action_taken`.
  act_open :
      (reply : Reply) (node : Node) (s t : BoAgentState) (db db' : Db)
      → is_hitl node ≡ false
      → act rt env reply node s db ≡ (ok t, db')
      → t.action_taken ≡ false
      → s.action_taken ≡ false
  unfolding act ag01_handler_node lookup_ssi_node prepare_register_ssi_node gets ◌>>=◌
      ssi_not_found_escalate_node be01_handler_node fo_side_handler_node escalate
  act_open reply Node.model_router s t db db' h e a = cc
  act_open reply Node.gather_context s t db db' h e a = ground (arith, gather-action_taken s)
  act_open reply Node.agent s t db db' h e a = ground arith
  act_open reply Node.rag_context s t db db' h e a = ground (arith, similar-action_taken s)
  act_open reply Node.deep_investigation s t db db' h e a = ground arith
  act_open reply Node.read_tools s t db db' h e a =
      ground (arith, read-action_taken (last_calls s.messages) s db)
  act_open reply Node.ag01_handler s t db db' h e a = ground arith
  act_open reply Node.lookup_ssi s t db db' h e a = ground arith
  act_open reply Node.prepare_register_ssi s t db db' h e a = ground arith
  act_open reply Node.ssi_not_found_escalate s t db db' h e a =
      ground (arith, escalated-action_taken s t _ (ap (λ x. x.0) e))
  act_open reply Node.be01_handler s t db db' h e a =
      ground (arith, escalated-action_taken s t _ (ap (λ x. x.0) e))
  act_open reply Node.fo_side_handler s t db db' h e a = fo_side-action_taken s t db db' e a
  act_open reply Node.finish s t db db' h e a = cc
  act_open reply _ s t db db' h e a = cc

  rejected_call-action_taken :
      (s t : BoAgentState) (call : Option ToolCall)
      → rejected_call s call ≡ some t
      → t.action_taken ≡ s.action_taken
  rejected_call-action_taken s t none e = cc
  rejected_call-action_taken s t (some call) e = ground arith

  bound_of : (n : ℕ) (c d : Config) → Approvals 0 c → Steps rt env n c d → Approvals n d
  bound_of n c d h none_yet = h
  bound_of n c d h (runs reply before p e) =
      let ih = bound_of n c _ h before in
      record {
        at_most_one = ih.at_most_one;
        none_open = λ z. ih.none_open (act_open reply _ _ _ _ _ p e z);
        closing = run_closing reply _ _ _ _ _ p ih.closing e;
      }
  bound_of n c d h (approved {d = m} reply before p e) =
      let ih = bound_of _ c m h before in
      record {
        at_most_one = elim (Bool-cases m.state.action_taken) [
          | inl taken ↦ ground (arith, hitl_open m.node p, ih.closing taken)
          | inr open_ ↦ ground (arith, ih.none_open open_)
        ];
        none_open = λ z. ground (arith, hitl-action_taken reply _ _ _ _ _ p e);
        closing = λ _. hitl_closing _ _ p;
      }
  bound_of n c d h (rejected before p e) =
      let ih = bound_of n c _ h before in
      record {
        at_most_one = ih.at_most_one;
        none_open = λ z. ih.none_open (sym (rejected_call-action_taken _ _ _ e) ∙ z);
        closing = λ _. hitl_closing _ _ p;
      }

  -- In a run of the Back-Office agent that `start` began the operator approves at most one action,
  -- whatever the language model answers and however many it asks for.
  pub one_approval :
      (n : ℕ) (trade_id error_context : String) (db : Db) (c : Config)
      → Steps rt env n (start trade_id error_context db) c
      → n ≤ 1
  one_approval n trade_id error_context db c steps =
      let start_open : Approvals 0 (start trade_id error_context db) = record {
        at_most_one = omega arith;
        none_open = λ _. refl;
        closing = λ h. cc;
      } in
      (bound_of n _ c start_open steps).at_most_one
