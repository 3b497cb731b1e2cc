-- ===== src/Agents/Fo/Graph.antt =====
-- The runs of the graph of src/infrastructure/fo_agent.py, as src/infrastructure/
-- fo_triage_use_case.py starts and resumes them: the graph halts before a node that writes, and
-- the operator approves or rejects it.
use deep_agent_test.Prelude.{
  ℕ, suc, ◌≡◌, String, Bool, true, false, Option, none, some, [], ◌∷◌, find_first, text_eq,
  if◌then◌else◌,
}
use Prim.Native.String.{◌++◌ as ◌<>◌}
use deep_agent_test.Result.{ok}
use deep_agent_test.Infrastructure.Db.{Db}
use deep_agent_test.Infrastructure.Runtime.{Runtime}
use deep_agent_test.Agents.{
  Reply, ToolCall, Content, AgentMessage, AgentRuntime, last_calls, member,
}
use deep_agent_test.Agents.Fo.{TriagePath, FoAgentState, Node, is_hitl, next, say}
use deep_agent_test.Agents.Fo.{act}

pub record Config : Type 0 where
  pub node : Node
  pub state : FoAgentState
  pub db : Db

-- The state with which `FoTriageUseCase.start` invokes the graph; a key that it leaves out has
-- the value that its readers put for it.
abbrev pub initial_state : String → String → FoAgentState
initial_state trade_id error_context = record {
  messages =
      AgentMessage.human (
        Content.text (
          "Please investigate the FoCheck failures for trade "
          <> trade_id
          <> "."
          <> (if text_eq error_context "" then "" else "\nAdditional context: " <> error_context)))
      ∷ [];
  trade_id = trade_id;
  error_message = error_context;
  action_taken = false;
  triage_path = TriagePath.unknown;
  sendback_count = 0;
  failed_rules = [];
}

abbrev pub start : String → String → Db → Config
start trade_id error_context db = record {
  node = Node.model_router;
  state = initial_state trade_id error_context;
  db = db;
}

-- Where the graph goes on after a node has left the state `s`.
abbrev pub leave : Node → FoAgentState → Db → Config
leave node s db = record { node = next node s; state = s; db = db }

-- `_FO_HITL_TOOL_NAMES`
abbrev pub is_hitl_call : ToolCall → Bool
is_hitl_call call = member call.name ("create_amend_event" ∷ "create_cancel_event" ∷ [])

abbrev pub rejected_call : FoAgentState → Option ToolCall → Option FoAgentState
rejected_call s none = none
rejected_call s (some call) = some (say (AgentMessage.tool (Content.rejection call.name) call.id) s)

-- What `resume` does to the state on a rejection; without a pending call it raises.
abbrev pub reject : FoAgentState → Option FoAgentState
reject s = rejected_call s (find_first is_hitl_call (last_calls s.messages))

-- `Steps n c d`: the run goes from `c` to `d`, and the operator approves `n` times.
module _ (rt : Runtime) (env : AgentRuntime) where
  pub data Steps : ℕ → Config → Config → Type 0 where
    none_yet : {c : Config} → Steps 0 c c
    runs :
        {n : ℕ} {c d : Config} {s : FoAgentState} {db : Db} (reply : Reply)
        → Steps n c d
        → is_hitl d.node ≡ false
        → act rt env reply d.node d.state d.db ≡ (ok s, db)
        → Steps n c (leave d.node s db)
    approved :
        {n : ℕ} {c d : Config} {s : FoAgentState} {db : Db} (reply : Reply)
        → Steps n c d
        → is_hitl d.node ≡ true
        → act rt env reply d.node d.state d.db ≡ (ok s, db)
        → Steps (suc n) c (leave d.node s db)
    rejected :
        {n : ℕ} {c d : Config} {s : FoAgentState}
        → Steps n c d
        → is_hitl d.node ≡ true
        → reject d.state ≡ some s
        → Steps n c (leave d.node s d.db)
