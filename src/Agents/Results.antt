-- ===== src/Agents/Results.antt =====
-- The results of the agents' runs: `_parse_llm_output` and `_extract_steps`, which src/
-- infrastructure/bo_triage_use_case.py and fo_triage_use_case.py both have.
pub mod Parsing
pub mod Steps
pub mod Extracting
use deep_agent_test.Prelude.{
  ℕ, String, Bool, true, false, ◌||◌, ◌&&◌, not, Option, none, some, List, [], ◌∷◌, ◌++◌, map, any,
  leb, text_eq, ◌==◌, if◌then◌else◌,
}
use deep_agent_test.Result.{Result, ok, err, type_error, value_error, ◌>>=◌}
use deep_agent_test.Domain.Text.{codes, starts_with}
use deep_agent_test.Domain.Json.{Json, Members, codes_eq, get_member}
use deep_agent_test.Domain.Entities.{RootCause, FieldValue}
use deep_agent_test.Domain.Triage.{
  StepType, tool_call, hitl_prompt, StepOutput, Step, Diagnosis, loaded, raw,
}
use deep_agent_test.Infrastructure.TradeRepository.{Fields}
use deep_agent_test.Agents.{ToolCall, Content, AgentMessage, calls_of}

-- What the use cases take from Python's `json` and from f-strings.
pub record Presenter : Type 0 where
  -- `str(message.content)`
  pub content_text : Content → List ℕ
  -- `json.loads`, `none` where it raises JSONDecodeError
  pub loads : List ℕ → Option Json
  -- `str` of a JSON value that is no text
  pub show_json : Json → List ℕ
  -- how an f-string writes `args.get(key)`, and whether the value is true
  pub show_value : Option FieldValue → String
  pub is_true : FieldValue → Bool

-- The whitespace that `str.strip` takes off.
abbrev pub is_space : ℕ → Bool
is_space c =
    (leb 9 c && leb c 13)
    || ((leb 28 c && leb c 32)
        || any (λ s. c == s)
            (0x85 ∷ 0xa0 ∷ 0x1680 ∷ 0x2028 ∷ 0x2029 ∷ 0x202f ∷ 0x205f ∷ 0x3000 ∷ [])
        || (leb 0x2000 c && leb c 0x200a))

unfoldable pub strip_left : List ℕ → List ℕ
strip_left [] = []
strip_left (c ∷ cs) = let rest = strip_left cs in if is_space c then rest else c ∷ cs

abbrev pub keep_if : Bool → ℕ → List ℕ → List ℕ
keep_if b c (r ∷ rest) = c ∷ r ∷ rest
keep_if b c [] = if b then c ∷ [] else []

unfoldable pub strip_right : List ℕ → List ℕ
strip_right [] = []
strip_right (c ∷ cs) = keep_if (not (is_space c)) c (strip_right cs)

unfoldable pub strip : List ℕ → List ℕ
unfolding strip_left strip_right
strip cs = strip_right (strip_left cs)

abbrev pub fence : List ℕ
fence = codes "```"

-- The part of a text in front of the first fence.
unfoldable pub until_fence : List ℕ → List ℕ
until_fence [] = []
until_fence (c ∷ cs) =
    let rest = until_fence cs in if starts_with (c ∷ cs) fence then [] else c ∷ rest

-- `content[len(prefix):]` where the text starts with the prefix, else the text.
unfoldable pub drop_prefix : List ℕ → List ℕ → List ℕ
drop_prefix [] cs = cs
drop_prefix (p ∷ ps) [] = []
drop_prefix (p ∷ ps) (c ∷ cs) = drop_prefix ps cs

unfoldable pub without_prefix : List ℕ → List ℕ → List ℕ
unfolding drop_prefix
without_prefix p cs = if starts_with cs p then drop_prefix p cs else cs

-- From the first brace on, or the whole text where there is none.
unfoldable pub from_brace : List ℕ → Option (List ℕ)
from_brace [] = none
from_brace (c ∷ cs) = let rest = from_brace cs in if c == b'{' then some (c ∷ cs) else rest

abbrev pub or_whole : List ℕ → Option (List ℕ) → List ℕ
or_whole cs none = cs
or_whole cs (some found) = found

unfoldable pub unfenced : List ℕ → List ℕ
unfolding strip until_fence without_prefix
unfenced cs =
    if starts_with cs fence
    then strip (without_prefix (codes "json") (until_fence (drop_prefix fence cs)))
    else cs

-- The text that `_parse_llm_output` hands to `json.loads`.
unfoldable pub json_text : List ℕ → List ℕ
unfolding strip unfenced from_brace
json_text content = let cs = unfenced (strip content) in or_whole cs (from_brace cs)

-- The last message of the model that calls no tool.
unfoldable pub final_message : List AgentMessage → Option Content
final_message [] = none
final_message (m ∷ ms) = elim (final_message ms) [
  | some c ↦ some c
  | none ↦ elim m [
    | AgentMessage.ai content calls ↦ elim calls [ [] ↦ some content | call ∷ rest ↦ none ]
    | AgentMessage.human content ↦ none
    | AgentMessage.tool content id ↦ none
  ]
]

abbrev root_causes : List (List ℕ × RootCause)
root_causes =
    (codes "MISSING_SSI", RootCause.missing_ssi)
    ∷ (codes "BIC_FORMAT_ERROR", RootCause.bic_format_error)
    ∷ (codes "INVALID_VALUE_DATE", RootCause.invalid_value_date)
    ∷ (codes "INSTRUMENT_NOT_FOUND", RootCause.instrument_not_found)
    ∷ (codes "COUNTERPARTY_NOT_FOUND", RootCause.counterparty_not_found)
    ∷ (codes "SWIFT_AC01", RootCause.swift_ac01)
    ∷ (codes "SWIFT_AG01", RootCause.swift_ag01)
    ∷ (codes "IBAN_FORMAT_ERROR", RootCause.iban_format_error)
    ∷ (codes "COMPOUND_FAILURE", RootCause.compound_failure)
    ∷ (codes "UNKNOWN", RootCause.unknown)
    ∷ []

unfoldable pub find_cause : List ℕ → List (List ℕ × RootCause) → Option RootCause
find_cause name [] = none
find_cause name (c ∷ cs) =
    let rest = find_cause name cs in if codes_eq c.0 name then some c.1 else rest

-- `RootCause(value)`, `none` where it raises ValueError.
unfoldable pub root_cause_of : Json → Option RootCause
unfolding find_cause
root_cause_of (Json.str name) = find_cause name root_causes
root_cause_of _ = none

-- `tool_results.get(id)`: the last message for that call stays in the dictionary.
unfoldable pub tool_result : String → List AgentMessage → Option Content
tool_result id [] = none
tool_result id (m ∷ ms) = elim (tool_result id ms) [
  | some c ↦ some c
  | none ↦ elim m [
    | AgentMessage.tool content call_id ↦ if text_eq call_id id then some content else none
    | AgentMessage.human content ↦ none
    | AgentMessage.ai content calls ↦ none
  ]
]

abbrev pub step_type_of : Bool → StepType
step_type_of true = hitl_prompt
step_type_of false = tool_call

module _ (p : Presenter) where
  abbrev str_of : Json → List ℕ
  str_of (Json.str s) = s
  str_of j = p.show_json j

  abbrev pub diagnosis_of : Option Json → Option Json → Option Json → Option Diagnosis
  diagnosis_of (some d) (some c) (some a) = elim (root_cause_of c) [
    | none ↦ none
    | some cause ↦
        some (record { diagnosis = str_of d; root_cause = cause; recommended_action = str_of a })
  ]
  diagnosis_of (some d) (some c) none = none
  diagnosis_of (some d) none a = none
  diagnosis_of none c a = none

  -- The keys that are read, `none` on a KeyError or a ValueError.
  unfoldable pub read_object : Members → Option Diagnosis
  unfolding get_member root_cause_of
  read_object m =
      diagnosis_of (get_member (codes "diagnosis") m) (get_member (codes "root_cause") m)
        (get_member (codes "recommended_action") m)

  abbrev manual : List ℕ
  manual = codes "Manual investigation required."

  -- The `except` clause.
  abbrev pub fallback : Content → Diagnosis
  fallback content = record {
    diagnosis = p.content_text content;
    root_cause = RootCause.unknown;
    recommended_action = manual;
  }

  abbrev or_fallback : Content → Option Diagnosis → Diagnosis
  or_fallback content none = fallback content
  or_fallback content (some d) = d

  -- Indexing a value that is no object raises TypeError, which is not caught.
  unfoldable pub read_json : Content → Option Json → Result Diagnosis
  unfolding read_object
  read_json content none = ok (fallback content)
  read_json content (some (Json.obj m)) = ok (or_fallback content (read_object m))
  read_json content (some _) = err type_error

  unfoldable pub parse_final : Option Content → Result Diagnosis
  unfolding read_json json_text
  parse_final none = ok (record {
    diagnosis = codes "No diagnosis produced.";
    root_cause = RootCause.unknown;
    recommended_action = manual;
  })
  parse_final (some content) = read_json content (p.loads (json_text (p.content_text content)))

  unfoldable pub parse_llm_output : List AgentMessage → Result Diagnosis
  unfolding parse_final final_message
  parse_llm_output messages = parse_final (final_message messages)

  -- `Step` takes an object or None as output; any other value is a ValidationError.
  unfoldable pub checked_output : List ℕ → Option Json → Result (Option StepOutput)
  checked_output text none = ok (some (raw text))
  checked_output text (some (Json.obj m)) = ok (some (loaded m))
  checked_output text (some Json.null) = ok none
  checked_output text (some _) = err value_error

  abbrev pub output_of : Option Content → Result (Option StepOutput)
  output_of none = ok none
  output_of (some content) =
      checked_output (p.content_text content) (p.loads (p.content_text content))

  unfoldable pub step_of : (ToolCall → Bool) → List AgentMessage → ToolCall → Result Step
  unfolding tool_result checked_output
  step_of is_prompt messages call = do
    output ← output_of (tool_result call.id messages)
    ok (record {
      step_type = step_type_of (is_prompt call);
      name = call.name;
      input = call.args;
      output = output;
      approved = none;
    })

  unfoldable pub steps_of :
      (ToolCall → Bool) → List AgentMessage → List ToolCall → Result (List Step)
  unfolding step_of
  steps_of is_prompt messages [] = ok []
  steps_of is_prompt messages (call ∷ calls) = do
    step ← step_of is_prompt messages call
    rest ← steps_of is_prompt messages calls
    ok (step ∷ rest)

  -- The loop over the messages; all of them stand in `messages`.
  unfoldable pub steps_in :
      (ToolCall → Bool) → List AgentMessage → List AgentMessage → Result (List Step)
  unfolding steps_of
  steps_in is_prompt messages [] = ok []
  steps_in is_prompt messages (m ∷ rest) = do
    here ← steps_of is_prompt messages (calls_of (some m))
    later ← steps_in is_prompt messages rest
    ok (here ++ later)

  unfoldable pub extract_steps : (ToolCall → Bool) → List AgentMessage → Result (List Step)
  unfolding steps_in
  extract_steps is_prompt messages = steps_in is_prompt messages messages
