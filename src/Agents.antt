-- ===== src/Agents.antt =====
-- What the agents of src/infrastructure/bo_agent.py and fo_agent.py share: messages, tool calls,
-- and what they take from langchain, from the language model and from the retrieval service.
pub mod Bo
pub mod Fo
pub mod Results
pub mod Asked
use deep_agent_test.Prelude.{
  ℕ, String, Bool, true, false, ◌||◌, Option, none, some, List, [], ◌∷◌, ◌++◌, any, map, select,
  find_first, text_eq, ◌≡◌, refl, if◌then◌else◌,
}
use deep_agent_test.Result.{Error, Result, ok, err, value_error, type_error}
use deep_agent_test.Domain.Entities.{FieldValue, CheckResult}
use deep_agent_test.Infrastructure.RuleEngine.{is_failed}
use deep_agent_test.Infrastructure.Db.{Db}
use deep_agent_test.Infrastructure.TradeRepository.{Fields, field}
use deep_agent_test.Infrastructure.Tools.{ToolResult}

-- An entry of `tool_calls`.
pub record ToolCall : Type 0 where
  pub id : String
  pub name : String
  pub args : Fields

-- The texts that the program writes into messages, with what they quote.
pub data Content : Type 0 where
  text : String → Content
  result : ToolResult → Content
  failure : Error → Content
  escalated : ToolResult → Content
  similar : List String → Content
  rejection : String → Content
  -- trade, LEI, currency, sendback count, failed rules and triage path
  context : String → String → String → ℕ → List String → String → Content

pub data AgentMessage : Type 0 where
  human : Content → AgentMessage
  ai : Content → List ToolCall → AgentMessage
  tool : Content → String → AgentMessage

pub record AgentRuntime : Type 0 where
  -- what the schema of a tool makes of a JSON value for an argument declared `str`
  pub str_argument : FieldValue → Result String
  -- `json.loads`, `none` where it raises
  pub json_object : String → Option Fields
  -- the outputs of the tools that only read
  pub read_tool : ToolCall → Db → String
  -- how an f-string writes a number, the `repr` of a text and that of a list of texts
  pub show : ℕ → String
  pub repr : String → String
  pub repr_list : List String → String
  -- the retrieval service's `search_similar`
  pub search_similar : String → List String → List String

-- `messages[-1]`
abbrev pub last_message : List AgentMessage → Option AgentMessage
last_message [] = none
last_message (m ∷ []) = some m
last_message (m ∷ n ∷ rest) = last_message (n ∷ rest)

-- The tool calls of a message; a message that is no AIMessage has none.
abbrev pub calls_of : Option AgentMessage → List ToolCall
calls_of (some (ai content calls)) = calls
calls_of _ = []

abbrev pub last_calls : List AgentMessage → List ToolCall
last_calls messages = calls_of (last_message messages)

pub last_message-append :
    (ms : List AgentMessage) (m : AgentMessage) → last_message (ms ++ m ∷ []) ≡ some m
last_message-append [] m = refl
last_message-append (n ∷ []) m = refl
last_message-append (n ∷ k ∷ rest) m = last_message-append (k ∷ rest) m

abbrev pub is_named : String → ToolCall → Bool
is_named name call = text_eq call.name name

abbrev pub member : String → List String → Bool
member name names = any (λ other. text_eq other name) names

module _ (env : AgentRuntime) where
  -- A declared argument, without and with a default of "".
  abbrev pub required : String → Fields → Result String
  required key args = elim (field key args) [ none ↦ err value_error | some v ↦ env.str_argument v ]

  abbrev pub optional : String → Fields → Result String
  optional key args = elim (field key args) [ none ↦ ok "" | some v ↦ env.str_argument v ]

-- What the language model answers: a content and tool calls.
pub record Reply : Type 0 where
  pub content : String
  pub calls : List ToolCall

abbrev pub names_of_failed : Option (List CheckResult) → List String
names_of_failed none = []
names_of_failed (some results) = map (λ r. r.rule_name) (select is_failed results)

-- The content of a tool's message, an exception included.
abbrev pub content_of : Result ToolResult → Content
content_of (ok r) = Content.result r
content_of (err e) = Content.failure e
