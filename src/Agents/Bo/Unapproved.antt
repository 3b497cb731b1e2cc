-- ===== src/Agents/Bo/Unapproved.antt =====
-- What a run of the graph of src/infrastructure/bo_agent.py writes, without the operator's
-- approval.
use deep_agent_test.Prelude.{
  ◌≡◌, refl, ◌∙◌, ap, Bool, false, String, Option, none, some, List, [], ◌∷◌, text_eq, ◌==◌,
  update_first, map, inl, inr, Bool-cases,
}
use mathlib.Core.Path.{subst}
use deep_agent_test.Result.{Result}
use deep_agent_test.Domain.Entities.{TradeModel, TradeWorkflowStatus}
use deep_agent_test.Infrastructure.Db.{Db, Exec}
use deep_agent_test.Infrastructure.Db.Keeps.{Keeps, On, keeps_rules, on_rules, Keeps-with_session}
use deep_agent_test.Infrastructure.Runtime.{Runtime}
use deep_agent_test.Infrastructure.TradeRepository.{
  Fields, is_current_of, set_current_row, with_status, update_workflow_status,
}
use deep_agent_test.Infrastructure.Tools.{ToolResult, escalate_to_bo_user, answer_row}
use deep_agent_test.Agents.{Reply, ToolCall, AgentRuntime, AgentMessage, last_calls}
use deep_agent_test.Agents.Bo.{BoAgentState, Node, is_hitl, say}
use deep_agent_test.Agents.Bo.Nodes.{act, read_call, read_calls, invoke_escalate}
use deep_agent_test.Agents.Bo.Handlers.{
  escalate, ssi_not_found_escalate_node, be01_handler_node, fo_side_handler_node,
}
use deep_agent_test.Agents.Bo.Graph.{Config, Steps, none_yet, runs, rejected}

-- A trade without its status and the time of its last update.
abbrev pub but_status : TradeModel → TradeModel
but_status row = record row { workflow_status = TradeWorkflowStatus.initial; updated_at = 0 }

-- Two databases that agree in all but the statuses of trades.
pub record SameButStatus (before after : Db) : Type 0 where
  pub trades : map but_status after.trades ≡ map but_status before.trades
  pub counterparties : after.counterparties ≡ before.counterparties
  pub ssis : after.ssis ≡ before.ssis
  pub events : after.events ≡ before.events
  pub settings : after.settings ≡ before.settings

map-update_first :
    (p : TradeModel → Bool) (f : TradeModel → TradeModel) (rows : List TradeModel)
    → ((r : TradeModel) → but_status (f r) ≡ but_status r)
    → map but_status (update_first p f rows) ≡ map but_status rows
map-update_first p f [] k = refl
map-update_first p f (r ∷ rows) k = elim (Bool-cases (p r)) [
  | inl e ↦ rw e (ap (λ x. x ∷ map but_status rows) (k r))
  | inr e ↦ rw e (ap (λ x. but_status r ∷ x) (map-update_first p f rows k))
]

trades-SameButStatus :
    (before db : Db) (rows : List TradeModel)
    → map but_status rows ≡ map but_status db.trades
    → SameButStatus before db
    → SameButStatus before (record db { trades = rows })
trades-SameButStatus before db rows e h = record {
  trades = e ∙ h.trades;
  counterparties = h.counterparties;
  ssis = h.ssis;
  events = h.events;
  settings = h.settings;
}

set_current_row-SameButStatus :
    (rt : Runtime) (before : Db) (t : String) (status : TradeWorkflowStatus) (o : Option TradeModel)
    → Keeps
        (On (SameButStatus before))
        (set_current_row rt t (with_status rt status (λ row. row)) o)
set_current_row-SameButStatus rt before t status none = search keeps_rules
set_current_row-SameButStatus rt before t status (some row) = search (
  keeps_rules,
  on_rules,
  λ (db : Db) (h : SameButStatus before db).
      trades-SameButStatus before db
        (update_first (is_current_of t) (with_status rt status (λ row. row)) db.trades)
        (map-update_first (is_current_of t) (with_status rt status (λ row. row)) db.trades
          (λ r. refl))
        h,
)

module _ (rt : Runtime) (env : AgentRuntime) where
  -- A property that `escalate_to_bo_user` keeps is kept by every node that awaits no approval.
  module _ (Q : Db → Type 0)
      (direct : (t reason : String) → Keeps (On Q) (escalate_to_bo_user rt t reason)) where
    Keeps-invoke_escalate : (args : Fields) → Keeps (On Q) (invoke_escalate rt env args)
    unfolding invoke_escalate
    Keeps-invoke_escalate args = search (keeps_rules, direct)

    read_call-keeps : (call : ToolCall) (db : Db) → Q db → Q (read_call rt env call db).1
    read_call-keeps call db h =
        let k =
          Keeps-with_session (invoke_escalate rt env call.args) db (Keeps-invoke_escalate call.args)
            h in
        elim (Bool-cases (text_eq call.name "escalate_to_bo_user")) [
          | inl e ↦ rw e k
          | inr e ↦ rw e h
        ]

    read_calls-keeps :
        (calls : List ToolCall) (s : BoAgentState) (db : Db)
        → Q db
        → Q (read_calls rt env calls s db).1
    read_calls-keeps [] s db h = h
    read_calls-keeps (call ∷ calls) s db h =
        read_calls-keeps calls (say (AgentMessage.tool (read_call rt env call db).0 call.id) s)
          (read_call rt env call db).1 (read_call-keeps call db h)

    escalate-keeps :
        (reason : String) (s : BoAgentState) (db : Db) → Q db → Q (escalate rt reason s db).1
    unfolding escalate
    escalate-keeps reason s db h =
        Keeps-with_session (escalate_to_bo_user rt s.trade_id reason) db (direct s.trade_id reason)
          h

    fo_side-keeps : (s : BoAgentState) (db : Db) → Q db → Q (fo_side_handler_node rt env s db).1
    unfolding fo_side_handler_node
    fo_side-keeps s db h = elim (Bool-cases (s.sendback_count == 0)) [
      | inl e ↦ rw e h
      | inr e ↦ rw e (escalate-keeps _ s db h)
    ]

    pub act-keeps :
        (reply : Reply) (node : Node) (s : BoAgentState) (db : Db)
        → is_hitl node ≡ false
        → Q db
        → Q (act rt env reply node s db).1
    unfolding act ssi_not_found_escalate_node be01_handler_node
    act-keeps reply Node.read_tools s db h q = read_calls-keeps (last_calls s.messages) s db q
    act-keeps reply Node.ssi_not_found_escalate s db h q = escalate-keeps _ s db q
    act-keeps reply Node.be01_handler s db h q = escalate-keeps _ s db q
    act-keeps reply Node.fo_side_handler s db h q = fo_side-keeps s db q
    act-keeps reply Node.model_router s db h q = q
    act-keeps reply Node.gather_context s db h q = q
    act-keeps reply Node.agent s db h q = q
    act-keeps reply Node.rag_context s db h q = q
    act-keeps reply Node.deep_investigation s db h q = q
    act-keeps reply Node.ag01_handler s db h q = q
    act-keeps reply Node.lookup_ssi s db h q = q
    act-keeps reply Node.prepare_register_ssi s db h q = q
    act-keeps reply Node.finish s db h q = q
    act-keeps reply _ s db h q = cc

    unapproved-keeps : (c d : Config) → Steps rt env 0 c d → Q c.db → Q d.db
    unapproved-keeps c d none_yet q = q
    unapproved-keeps c d (runs {d = m} reply before p e) q =
        subst (λ (x : Result BoAgentState × Db). Q x.1) e
          (act-keeps reply m.node m.state m.db p (unapproved-keeps c m before q))
    unapproved-keeps c d (rejected before p e) q = unapproved-keeps c _ before q

  Keeps-answer_row :
      {P : Db → Type 0} {A : Type 0} (missing : ToolResult) (go : A → Exec ToolResult)
      (row : Option A)
      → ((a : A) → Keeps (On P) (go a))
      → Keeps (On P) (answer_row missing go row)
  Keeps-answer_row missing go none k = search keeps_rules
  Keeps-answer_row missing go (some a) k = k a

  escalate-SameButStatus :
      (before : Db) (t reason : String)
      → Keeps (On (SameButStatus before)) (escalate_to_bo_user rt t reason)
  unfolding escalate_to_bo_user update_workflow_status
  escalate-SameButStatus before t reason =
      search (keeps_rules, on_rules, Keeps-answer_row, set_current_row-SameButStatus rt before)
        depth 30

  -- As long as the operator has approved nothing, a run of the Back-Office agent changes no
  -- counterparty, settlement instruction, event or setting, and of the trades nothing but the
  -- status and the time of the last update.
  pub unapproved_writes : (c d : Config) → Steps rt env 0 c d → SameButStatus c.db d.db
  unapproved_writes c d steps =
      unapproved-keeps (SameButStatus c.db) (escalate-SameButStatus c.db) c d steps (record {
        trades = refl;
        counterparties = refl;
        ssis = refl;
        events = refl;
        settings = refl;
      })
