-- ===== src/Agents/Bo/Handlers.antt =====
-- The nodes of src/infrastructure/bo_agent.py that call no tool on behalf of a message.
use deep_agent_test.Prelude.{
  String, Bool, true, Option, none, some, List, [], ◌∷◌, select, find_first, text_eq, ◌==◌,
  if◌then◌else◌,
}
use Prim.Native.String.{◌++◌ as ◌<>◌}
use deep_agent_test.Result.{Result, ok, err}
use deep_agent_test.Domain.Entities.{
  TradeModel, FieldValue, text_value, other_value, SettlementInstructionModel,
}
use deep_agent_test.Infrastructure.Db.{Db, with_session}
use deep_agent_test.Infrastructure.Runtime.{Runtime}
use deep_agent_test.Infrastructure.TradeRepository.{Fields, is_current_of}
use deep_agent_test.Infrastructure.Tools.{ToolResult, escalate_to_bo_user, lookup_external_ssi}
use deep_agent_test.Agents.{
  Reply, names_of_failed, ToolCall, Content, AgentMessage, AgentRuntime, member,
}
use deep_agent_test.Agents.Bo.{TriagePath, BoAgentState, determine_triage_path, say}

abbrev pub path_name : TriagePath → String
path_name TriagePath.ag01 = "AG01"
path_name TriagePath.missing_ssi = "MISSING_SSI"
path_name TriagePath.be01 = "BE01"
path_name TriagePath.am04 = "AM04"
path_name TriagePath.unknown = "UNKNOWN"
path_name TriagePath.compound = "COMPOUND"

abbrev or_text : String → String → String
or_text first second = if text_eq first "" then second else first

-- `gather_context_node`: the results of the BoCheck and the trade are those of the current row.
abbrev pub gather : BoAgentState → Option TradeModel → BoAgentState
gather s none = record s {
  triage_path = TriagePath.unknown;
  sendback_count = 0;
  failed_rules = [];
  counterparty_lei = "";
  currency = "";
}
gather s (some trade) =
    let rules = names_of_failed trade.bo_check_results in
    let path = determine_triage_path s.error_message rules in
    let currency = or_text trade.settlement_currency trade.currency in
    say
      (AgentMessage.human (
        Content.context s.trade_id trade.counterparty_lei currency trade.sendback_count rules
          (path_name path)))
      (record s {
        triage_path = path;
        sendback_count = trade.sendback_count;
        failed_rules = rules;
        counterparty_lei = trade.counterparty_lei;
        currency = currency;
      })

abbrev pub gather_context_node : BoAgentState → Db → BoAgentState
gather_context_node s db = gather s (find_first (is_current_of s.trade_id) db.trades)

abbrev det_call : String → String → BoAgentState → Fields → ToolCall
det_call tag name s args = record { id = tag <> s.trade_id; name = name; args = args }

abbrev ask : String → ToolCall → BoAgentState → BoAgentState
ask content call s = say (AgentMessage.ai (Content.text content) (call ∷ [])) s

unfoldable pub ag01_handler_node : BoAgentState → BoAgentState
ag01_handler_node s =
    ask "AG01: counterparty inactive. Requesting reactivation."
      (det_call "det_ag01_" "reactivate_counterparty" s
        (("lei", text_value s.counterparty_lei) ∷ []))
      s

unfoldable pub lookup_ssi_node : BoAgentState → Db → BoAgentState
lookup_ssi_node s db =
    elim (with_session (lookup_external_ssi s.counterparty_lei s.currency) db).0 [
      | ok row ↦ record s { external_ssi = row }
      | err e ↦ s
    ]

-- An SSI without IBAN carries `null`.
abbrev iban_value : Option String → FieldValue
iban_value none = other_value
iban_value (some iban) = text_value iban

abbrev ssi_args : BoAgentState → Option SettlementInstructionModel → Fields
ssi_args s none =
    ("lei", text_value s.counterparty_lei)
    ∷ ("currency", text_value s.currency)
    ∷ ("bic", text_value "")
    ∷ ("account", text_value "")
    ∷ ("iban", text_value "")
    ∷ []
ssi_args s (some ssi) =
    ("lei", text_value ssi.lei)
    ∷ ("currency", text_value ssi.currency)
    ∷ ("bic", text_value ssi.bic)
    ∷ ("account", text_value ssi.account)
    ∷ ("iban", iban_value ssi.iban)
    ∷ []

unfoldable pub prepare_register_ssi_node : BoAgentState → BoAgentState
prepare_register_ssi_node s =
    ask "External SSI found. Requesting registration."
      (det_call "det_register_ssi_" "register_ssi" s (ssi_args s s.external_ssi)) s

module _ (rt : Runtime) where
  abbrev pub escalated_state : BoAgentState → Result ToolResult → Result BoAgentState
  escalated_state s (ok r) =
      ok (say (AgentMessage.human (Content.escalated r)) (record s { action_taken = true }))
  escalated_state s (err e) = err e

  -- The direct call of `escalate_to_bo_user` and what follows it.
  unfoldable pub escalate : String → BoAgentState → Db → Result BoAgentState × Db
  escalate reason s db =
      let (r, db') = with_session (escalate_to_bo_user rt s.trade_id reason) db in
      (escalated_state s r, db')

module _ (rt : Runtime) (env : AgentRuntime) where
  unfoldable pub ssi_not_found_escalate_node : BoAgentState → Db → Result BoAgentState × Db
  unfolding escalate
  ssi_not_found_escalate_node s db =
      escalate rt
        ("No internal or external SSI found for LEI "
          <> env.repr s.counterparty_lei
          <> " / currency "
          <> env.repr s.currency
          <> ". Manual counterparty SSI setup required.")
        s db

  abbrev is_format_rule : String → Bool
  is_format_rule r = member r ("bic_format_valid" ∷ "iban_format_valid" ∷ [])

  unfoldable pub be01_handler_node : BoAgentState → Db → Result BoAgentState × Db
  unfolding escalate
  be01_handler_node s db =
      escalate rt
        ("BIC/IBAN format error (BE01) — failed rules: "
          <> env.repr_list (select is_format_rule s.failed_rules)
          <> ". Correct values must be sourced from the counterparty directly.")
        s db

  unfoldable pub fo_side_handler_node : BoAgentState → Db → Result BoAgentState × Db
  unfolding escalate
  fo_side_handler_node s db =
      let escalated =
        escalate rt
          ("AM04 FO-side issue but sendback_count="
            <> env.show s.sendback_count
            <> " — second sendback prohibited. Manual BO intervention required.")
          s db in
      if s.sendback_count == 0
      then (
        ok (
            ask "AM04: FO-side issue. Sending back to FO."
              (det_call "det_sendback_" "send_back_to_fo" s (
                ("trade_id", text_value s.trade_id)
                ∷ (
                  "reason",
                  text_value ("AM04 liquidity issue — FO-side problem. " <> s.error_message),
                )
                ∷ []))
              s),
        db,
      )
      else escalated

module _ (env : AgentRuntime) where
  abbrev pub with_similar : BoAgentState → List String → BoAgentState
  with_similar s [] = s
  with_similar s (r ∷ rs) = say (AgentMessage.human (Content.similar (r ∷ rs))) s

  abbrev pub rag_context_node : BoAgentState → BoAgentState
  rag_context_node s = with_similar s (env.search_similar s.error_message s.failed_rules)

-- `_llm_invoke`, for the nodes `agent` and `deep_investigation`.
abbrev pub llm_invoke : Reply → BoAgentState → BoAgentState
llm_invoke reply s = say (AgentMessage.ai (Content.text reply.content) reply.calls) s
