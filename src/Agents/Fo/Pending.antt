-- ===== src/Agents/Fo/Pending.antt =====
-- The action that src/infrastructure/fo_triage_use_case.py shows to the operator, and the one that
-- the halted node of src/infrastructure/fo_agent.py executes.
use deep_agent_test.Prelude.{
  ℕ, ◌≡◌, ◌≢◌, refl, ap, ◌∙◌, sym, String, Bool, true, false, Option, none, some, List, [], ◌∷◌,
  find_first, text_eq, arith, Option-cases, inl, inr,
}
use mathlib.Core.Path.{subst}
use deep_agent_test.Result.{Result, ok, ◌>>=◌}
use deep_agent_test.Infrastructure.Db.{Db}
use deep_agent_test.Infrastructure.Runtime.{Runtime}
use deep_agent_test.Agents.Fo.Executing.{tool_of, RunsCall, act-RunsCall}
use deep_agent_test.Agents.Asked.{text_eq_sym, IsCommon, asked-name, here-IsCommon, later-IsCommon}
use deep_agent_test.Agents.{Reply, ToolCall, AgentRuntime, last_calls, member}
use deep_agent_test.Agents.Fo.{
  FoAgentState, Node, is_hitl, next, route_calls, route_after_agent, hitl_node_of,
}
use deep_agent_test.Agents.Fo.{act}
use deep_agent_test.Domain.Triage.{Step, TriageResult, pending_approval}
use deep_agent_test.Agents.Results.{Presenter}
use deep_agent_test.Agents.Results.Steps.{AreOutputs, extract_steps-AreSteps}
use deep_agent_test.Agents.Fo.Results.{
  name_of, describe, format_fo_hitl_action, pending_result, build_result,
}
use deep_agent_test.Agents.Fo.Graph.{
  Config, Steps, none_yet, runs, approved, rejected, start, is_hitl_call, reject, rejected_call,
}

abbrev asked_names : List String
asked_names = "create_amend_event" ∷ "create_cancel_event" ∷ []

abbrev IsShown : Node → List ToolCall → Type 0
IsShown node calls = IsCommon asked_names (tool_of node) calls

-- The names that lead to a node are those that the operator is asked about.
hitl_node_of-tool :
    (name : String) (node : Node)
    → hitl_node_of name ≡ some node
    → (text_eq name (tool_of node) ≡ true) × (member name asked_names ≡ true)
hitl_node_of-tool name node e = ground (
  arith,
  asked-name asked_names name "create_amend_event",
  asked-name asked_names name "create_cancel_event",
)

hitl_node_of-none : (name : String) → hitl_node_of name ≡ none → member name asked_names ≡ false
hitl_node_of-none name e =
    ground (arith, text_eq_sym "create_amend_event" name, text_eq_sym "create_cancel_event" name)

route_calls-some :
    (call : ToolCall) (calls : List ToolCall) (node : Node)
    → hitl_node_of call.name ≡ some node
    → route_calls (call ∷ calls) ≡ node
route_calls-some call calls node e = rw (route_calls, e) refl

route_calls-none :
    (call : ToolCall) (calls : List ToolCall)
    → hitl_node_of call.name ≡ none
    → route_calls (call ∷ calls) ≡ route_calls calls
route_calls-none call calls e = rw (route_calls, e) refl

route_calls-IsShown :
    (calls : List ToolCall) → is_hitl (route_calls calls) ≡ true → IsShown (route_calls calls) calls
route_calls-IsShown [] h = cc
route_calls-IsShown (call ∷ calls) h = elim (Option-cases (hitl_node_of call.name)) [
  | inl none_ ↦
      let e = route_calls-none call calls none_ in
      subst (λ (n : Node). IsShown n (call ∷ calls)) (sym e)
        (later-IsCommon asked_names (tool_of (route_calls calls)) call calls
          (hitl_node_of-none call.name none_) (route_calls-IsShown calls (ap is_hitl (sym e) ∙ h)))
  | inr (node, found) ↦
      let (named, asked) = hitl_node_of-tool call.name node found in
      subst (λ (n : Node). IsShown n (call ∷ calls)) (sym (route_calls-some call calls node found))
        (here-IsCommon asked_names (tool_of node) call calls named asked)
]

route_after_agent-IsShown :
    (calls : List ToolCall) (taken : Bool)
    → is_hitl (route_after_agent calls taken) ≡ true
    → IsShown (route_after_agent calls taken) calls
unfolding route_after_agent
route_after_agent-IsShown [] taken h = cc
route_after_agent-IsShown (call ∷ calls) true h = cc
route_after_agent-IsShown (call ∷ calls) false h = route_calls-IsShown (call ∷ calls) h

after_hitl : (node : Node) (s : FoAgentState) → is_hitl node ≡ true → is_hitl (next node s) ≡ false
after_hitl Node.create_amend_event_node s h = refl
after_hitl _ s h = ground (arith, h)

module _ (rt : Runtime) (env : AgentRuntime) where
  -- What a node leaves where the run halts next.
  run-IsShown :
      (reply : Reply) (node : Node) (s t : FoAgentState) (db db' : Db)
      → is_hitl node ≡ false
      → act rt env reply node s db ≡ (ok t, db')
      → is_hitl (next node t) ≡ true
      → IsShown (next node t) (last_calls t.messages)
  unfolding act
  run-IsShown reply Node.agent s t db db' h e a =
      route_after_agent-IsShown (last_calls t.messages) t.action_taken a
  run-IsShown reply _ s t db db' h e a = cc

  Steps-IsShown :
      (n : ℕ) (c d : Config)
      → Steps rt env n c d
      → is_hitl c.node ≡ false
      → is_hitl d.node ≡ true
      → IsShown d.node (last_calls d.state.messages)
  Steps-IsShown n c d none_yet h a = cc (h, a)
  Steps-IsShown n c d (runs {d = m} reply before p e) h a =
      run-IsShown reply m.node m.state _ m.db _ p e a
  Steps-IsShown n c d (approved {d = m} {s = s} reply before p e) h a =
      cc (after_hitl m.node s p, a)
  Steps-IsShown n c d (rejected {d = m} {s = s} before p e) h a = cc (after_hitl m.node s p, a)

  -- Wherever a run of the Front-Office agent halts for the operator, with whatever answers of the
  -- language model, approvals and rejections before, if the texts of the tool messages are JSON
  -- objects, null or no JSON: `start` or `resume` returns a result that is pending, and the action
  -- that it names and describes is a call which the halted node executes on an approval: it runs the
  -- tool of that name with the arguments of the call, commits what that leaves, appends the answer
  -- under the identifier of the call and notes that an action was taken. A rejection finds a call as
  -- well.
  pub event_shown_is_executed :
      (p : Presenter) (run_id : String) (override : Option Bool) (n : ℕ) (trade_id context : String)
      (db : Db) (d : Config) (reply : Reply)
      → Steps rt env n (start trade_id context db) d
      → is_hitl d.node ≡ true
      → AreOutputs p d.state.messages
      → (call : ToolCall) × (r : TriageResult) × (build_result p run_id trade_id override d ≡ ok r)
        × (r.status ≡ pending_approval)
        × (r.pending_action_type ≡ some call.name)
        × (r.pending_action_description ≡ some (format_fo_hitl_action p call))
        × RunsCall rt env reply d.node d.state d.db call
        × (reject d.state ≢ none)
  unfolding build_result pending_result
  event_shown_is_executed p run_id override n trade_id context db d reply steps h outputs =
      let s = Steps-IsShown n (start trade_id context db) d steps refl h in
      let told = extract_steps-AreSteps p is_hitl_call d.state.messages outputs in
      let build : List Step → TriageResult = λ l. record {
        trade_id = trade_id;
        status = pending_approval;
        run_id = some run_id;
        pending_action_type = name_of (find_first is_hitl_call (last_calls d.state.messages));
        pending_action_description =
            some (describe p (find_first is_hitl_call (last_calls d.state.messages)));
        diagnosis = none;
        root_cause = none;
        recommended_action = none;
        action_taken = false;
        steps = l;
        agent_type = "fo";
      } in
      (
        s.call,
        build told.steps,
        rw h (ap (λ (r : Result (List Step)). r >>= λ l. ok (build l)) told.returned),
        refl,
        ap name_of s.shown,
        ap (λ (o : Option ToolCall). some (describe p o)) s.shown,
        act-RunsCall rt env reply d.node d.state d.db s.call h s.executed,
        λ none_. cc (ap (rejected_call d.state) s.shown, none_),
      )
