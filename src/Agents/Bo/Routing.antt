-- ===== src/Agents/Bo/Routing.antt =====
-- The routing functions of src/infrastructure/bo_agent.py.
use deep_agent_test.Prelude.{
  ℕ, ◌≤◌, ◌≡◌, ◌≢◌, ◌↔◌, refl, String, Bool, true, false, List, [], ◌∷◌, count_if, select, arith,
  inl, inr, Bool-cases, ◌==◌,
}
use deep_agent_test.Result.{Result, ok, err}
use deep_agent_test.Infrastructure.Db.{Db}
use deep_agent_test.Infrastructure.Runtime.{Runtime}
use deep_agent_test.Infrastructure.Tools.{ToolResult}
use deep_agent_test.Agents.{Reply, ToolCall, AgentRuntime, last_calls}
use deep_agent_test.Agents.Bo.{
  TriagePath, BoAgentState, Node, is_hitl, ag01_condition, be01_condition, am04_condition,
  missing_ssi_condition, conditions, path_of_matched, determine_triage_path, route_by_triage_path,
  route_calls, route_after_agent,
}
use deep_agent_test.Agents.Bo.Nodes.{act}
use deep_agent_test.Agents.Bo.Handlers.{fo_side_handler_node, escalate, escalated_state}
use deep_agent_test.Agents.Bo.Graph.{
  Config, Steps, none_yet, runs, approved, rejected, start, leave,
}

abbrev table : Bool → Bool → Bool → Bool → List (TriagePath × Bool)
table ag01 be01 am04 missing =
    (TriagePath.ag01, ag01)
    ∷ (TriagePath.be01, be01)
    ∷ (TriagePath.am04, am04)
    ∷ (TriagePath.missing_ssi, missing)
    ∷ []

abbrev path_of : Bool → Bool → Bool → Bool → TriagePath
path_of a b c d = path_of_matched (select (λ x. x.1) (table a b c d))

-- How many conditions hold.
abbrev pub holding : String → List String → ℕ
holding message rules = count_if (λ c. c.1) (conditions message rules)

path_of-compound :
    (a b c d : Bool)
    → (path_of a b c d ≡ TriagePath.compound) ↔ (2 ≤ count_if (λ x. x.1) (table a b c d))
path_of-compound a b c d = ground arith

path_of-unknown :
    (a b c d : Bool)
    → (path_of a b c d ≡ TriagePath.unknown) ↔ (count_if (λ x. x.1) (table a b c d) ≡ 0)
path_of-unknown a b c d = ground arith

path_of-am04 :
    (a b c d : Bool)
    → (path_of a b c d ≡ TriagePath.am04) ↔ ((c ≡ true) × (count_if (λ x. x.1) (table a b c d) ≡ 1))
path_of-am04 a b c d = ground arith

path_of-ag01 :
    (a b c d : Bool)
    → (path_of a b c d ≡ TriagePath.ag01) ↔ ((a ≡ true) × (count_if (λ x. x.1) (table a b c d) ≡ 1))
path_of-ag01 a b c d = ground arith

path_of-be01 :
    (a b c d : Bool)
    → (path_of a b c d ≡ TriagePath.be01) ↔ ((b ≡ true) × (count_if (λ x. x.1) (table a b c d) ≡ 1))
path_of-be01 a b c d = ground arith

path_of-missing_ssi :
    (a b c d : Bool)
    → (path_of a b c d ≡ TriagePath.missing_ssi)
      ↔ ((d ≡ true) × (count_if (λ x. x.1) (table a b c d) ≡ 1))
path_of-missing_ssi a b c d = ground arith

-- What the triage path says of the conditions: COMPOUND that two of them hold, UNKNOWN that none
-- does, and each other path that its own condition holds and no other.
pub record PathFits (message : String) (rules : List String) : Type 0 where
  pub compound :
      (determine_triage_path message rules ≡ TriagePath.compound) ↔ (2 ≤ holding message rules)
  pub unknown :
      (determine_triage_path message rules ≡ TriagePath.unknown) ↔ (holding message rules ≡ 0)
  pub ag01 :
      (determine_triage_path message rules ≡ TriagePath.ag01)
      ↔ ((ag01_condition message rules ≡ true) × (holding message rules ≡ 1))
  pub be01 :
      (determine_triage_path message rules ≡ TriagePath.be01)
      ↔ ((be01_condition message rules ≡ true) × (holding message rules ≡ 1))
  pub am04 :
      (determine_triage_path message rules ≡ TriagePath.am04)
      ↔ ((am04_condition message rules ≡ true) × (holding message rules ≡ 1))
  pub missing_ssi :
      (determine_triage_path message rules ≡ TriagePath.missing_ssi)
      ↔ ((missing_ssi_condition message rules ≡ true) × (holding message rules ≡ 1))

-- The triage path of every error message and list of failed rules fits the conditions: COMPOUND
-- exactly where at least two of them hold, UNKNOWN exactly where none does, and each other path
-- exactly where its condition holds alone.
pub determine_triage_path_lem : (message : String) (rules : List String) → PathFits message rules
unfolding determine_triage_path
determine_triage_path_lem message rules =
    let a = ag01_condition message rules in
    let b = be01_condition message rules in
    let c = am04_condition message rules in
    let d = missing_ssi_condition message rules in
    record {
      compound = path_of-compound a b c d;
      unknown = path_of-unknown a b c d;
      ag01 = path_of-ag01 a b c d;
      be01 = path_of-be01 a b c d;
      am04 = path_of-am04 a b c d;
      missing_ssi = path_of-missing_ssi a b c d;
    }

-- Where the graph stands when a sendback is about to be proposed by the program itself.
record Guarded (c : Config) : Type 0 where
  at_handler : c.node ≡ Node.fo_side_handler → c.state.triage_path ≡ TriagePath.am04
  at_sendback :
      c.node ≡ Node.send_back_to_fo_node
      → (c.state.triage_path ≡ TriagePath.am04) × (c.state.sendback_count ≡ 0)

abbrev is_det : Node → Bool
is_det Node.fo_side_handler = true
is_det Node.send_back_to_fo_node = true
is_det _ = false

route_calls_di : (calls : List ToolCall) → is_det (route_calls calls) ≡ false
route_calls_di [] = refl
route_calls_di (call ∷ calls) = ground (arith, route_calls_di calls)

route_di : (calls : List ToolCall) (taken : Bool) → is_det (route_after_agent calls taken) ≡ false
unfolding route_after_agent
route_di [] taken = refl
route_di (call ∷ calls) true = refl
route_di (call ∷ calls) false = route_calls_di (call ∷ calls)

by_path :
    (path : TriagePath)
    → (route_by_triage_path path ≡ Node.fo_side_handler → path ≡ TriagePath.am04)
      × (route_by_triage_path path ≢ Node.send_back_to_fo_node)
by_path path = ground arith

module _ (rt : Runtime) (env : AgentRuntime) where
  escalated_fields :
      (s t : BoAgentState) (r : Result ToolResult)
      → escalated_state rt s r ≡ ok t
      → (t.action_taken ≡ true) × (t.triage_path ≡ s.triage_path)
  escalated_fields s t (ok r) e = ground arith
  escalated_fields s t (err x) e = cc

  -- The handler of AM04 goes on to the sendback only from a count of zero.
  fo_side_fields :
      (s t : BoAgentState) (db db' : Db)
      → fo_side_handler_node rt env s db ≡ (ok t, db')
      → (t.triage_path ≡ s.triage_path) × (t.action_taken ≡ false → t.sendback_count ≡ 0)
  unfolding fo_side_handler_node escalate
  fo_side_fields s t db db' e = elim (Bool-cases (s.sendback_count == 0)) [
    | inl z ↦ ground arith
    | inr z ↦ ground (arith, escalated_fields s t)
  ]

  leave-Guarded :
      (reply : Reply) (node : Node) (s t : BoAgentState) (db db' : Db)
      → (node ≡ Node.fo_side_handler → s.triage_path ≡ TriagePath.am04)
      → act rt env reply node s db ≡ (ok t, db')
      → Guarded (leave node t db')
  unfolding act
  leave-Guarded reply Node.gather_context s t db db' h e = record {
    at_handler = (by_path t.triage_path).0;
    at_sendback = λ z. ground (arith, by_path t.triage_path);
  }
  leave-Guarded reply Node.fo_side_handler s t db db' h e = record {
    at_handler = λ z. ground arith;
    at_sendback = λ z. ground (arith, h, fo_side_fields s t db db' e);
  }
  leave-Guarded reply Node.agent s t db db' h e = record {
    at_handler = λ z. ground (arith, route_di (last_calls t.messages) t.action_taken);
    at_sendback = λ z. ground (arith, route_di (last_calls t.messages) t.action_taken);
  }
  leave-Guarded reply Node.deep_investigation s t db db' h e = record {
    at_handler = λ z. ground (arith, route_di (last_calls t.messages) t.action_taken);
    at_sendback = λ z. ground (arith, route_di (last_calls t.messages) t.action_taken);
  }
  leave-Guarded reply _ s t db db' h e = record {
    at_handler = λ z. ground arith;
    at_sendback = λ z. ground arith;
  }

  leave-Guarded_hitl :
      (node : Node) (t : BoAgentState) (db : Db) → is_hitl node ≡ true → Guarded (leave node t db)
  leave-Guarded_hitl _ t db h = record {
    at_handler = λ z. ground arith;
    at_sendback = λ z. ground arith;
  }

  guarded : (n : ℕ) (c d : Config) → Guarded c → Steps rt env n c d → Guarded d
  guarded n c d h none_yet = h
  guarded n c d h (runs {d = m} reply before p e) =
      leave-Guarded reply m.node m.state _ m.db _ (guarded n c m h before).at_handler e
  guarded n c d h (approved {n = k} {d = m} reply before p e) =
      leave-Guarded reply m.node m.state _ m.db _ (guarded k c m h before).at_handler e
  guarded n c d h (rejected {d = m} before p e) = leave-Guarded_hitl m.node _ m.db p

  -- The Back-Office agent is interrupted before the sendback of its own AM04 path only on that
  -- path and only where the sendback count that it read from the trade is zero.
  pub sendback_guard :
      (n : ℕ) (trade_id error_context : String) (db : Db) (c : Config)
      → Steps rt env n (start trade_id error_context db) c
      → c.node ≡ Node.send_back_to_fo_node
      → (c.state.triage_path ≡ TriagePath.am04) × (c.state.sendback_count ≡ 0)
  sendback_guard n trade_id error_context db c steps =
      let h : Guarded (start trade_id error_context db) = record {
        at_handler = λ z. ground arith;
        at_sendback = λ z. ground arith;
      } in
      (guarded n _ c h steps).at_sendback
