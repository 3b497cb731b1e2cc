-- ===== src/Tests/FoAgent.antt =====
-- A run of the Front-Office agent on the sample database.
use deep_agent_test.Prelude.{◌≤◌, refl, [], ◌∷◌}
use deep_agent_test.Result.{Result, ok, err}
use deep_agent_test.Domain.Entities.{text_value}
use deep_agent_test.Infrastructure.Db.{◌>>=◌}
use deep_agent_test.Infrastructure.Validity.{IsValid}
use deep_agent_test.Infrastructure.TradeRepository.{update_workflow_status}
use deep_agent_test.Infrastructure.EventRepository.{create}
use deep_agent_test.Infrastructure.Tools.{create_cancel_event}
use deep_agent_test.Agents.{Reply}
use deep_agent_test.Agents.Fo.{FoAgentState, act, route_after_agent, invoke_cancel}
use deep_agent_test.Agents.Fo.Graph.{Config, Steps, none_yet, runs, approved, start, leave}
use deep_agent_test.Agents.Fo.Approvals.{one_event_approval}
use deep_agent_test.Agents.Fo.Unapproved.{unapproved-IsValid}
use deep_agent_test.Tests.{sample, surroundings}
use deep_agent_test.Tests.Agents.{agents}
use deep_agent_test.Tests.Events.{sample-IsValid}
use deep_agent_test.Tests.Results.{presenter, presenter-AreOutputs}
use deep_agent_test.Domain.Triage.{TriageResult, pending_approval}
use deep_agent_test.Agents.Fo.Results.{build_result, format_fo_hitl_action}
use deep_agent_test.Agents.Fo.Executing.{RunsCall}
use deep_agent_test.Agents.Fo.Pending.{event_shown_is_executed}
use deep_agent_test.Agents.{ToolCall}
use deep_agent_test.Agents.Fo.{is_hitl}
use deep_agent_test.Prelude.{◌≡◌, ◌≢◌, true, none, some}
use deep_agent_test.Agents.Fo.Graph.{reject}

-- The language model asks for a cancellation.
abbrev pub ask_cancel : Reply
ask_cancel = record {
  content = "cancel";
  calls =
      record {
        id = "c1";
        name = "create_cancel_event";
        args = ("trade_id", text_value "T3") ∷ ("reason", text_value "booked twice") ∷ [];
      }
      ∷ [];
}

abbrev pub state_of : FoAgentState → Result FoAgentState → FoAgentState
state_of s (ok t) = t
state_of s (err e) = s

unfoldable pub advance : Config → Config
unfolding act invoke_cancel create_cancel_event update_workflow_status create ◌>>=◌
advance c =
    leave c.node (state_of c.state (act surroundings agents ask_cancel c.node c.state c.db).0)
      (act surroundings agents ask_cancel c.node c.state c.db).1

abbrev pub first : Config
first = start "T3" "" sample

unfoldable pub proposed : Config
unfolding advance
proposed = advance (advance (advance first))

pub up_to_proposed : Steps surroundings agents 0 first proposed
unfolding proposed advance act
up_to_proposed =
    runs ask_cancel (runs ask_cancel (runs ask_cancel none_yet refl refl) refl refl) refl refl

up_to_cancelled : Steps surroundings agents 1 first (advance proposed)
unfolding proposed advance act route_after_agent invoke_cancel create_cancel_event create
    update_workflow_status ◌>>=◌
up_to_cancelled = approved ask_cancel up_to_proposed refl refl

one_event_approval_example : 1 ≤ 1
one_event_approval_example =
    one_event_approval surroundings agents 1 "T3" "" sample (advance proposed) up_to_cancelled

unapproved-IsValid_example : IsValid proposed.db
unapproved-IsValid_example =
    unapproved-IsValid surroundings agents first proposed up_to_proposed sample-IsValid

proposed_asks : is_hitl proposed.node ≡ true
unfolding proposed advance act route_after_agent
proposed_asks = refl

event_shown_is_executed_example :
    (call : ToolCall) × (r : TriageResult) × (build_result presenter "r1" "T3" none proposed ≡ ok r)
    × (r.status ≡ pending_approval)
    × (r.pending_action_type ≡ some call.name)
    × (r.pending_action_description ≡ some (format_fo_hitl_action presenter call))
    × RunsCall surroundings agents ask_cancel proposed.node proposed.state proposed.db call
    × (reject proposed.state ≢ none)
event_shown_is_executed_example =
    event_shown_is_executed surroundings agents presenter "r1" none 0 "T3" "" sample proposed
      ask_cancel up_to_proposed proposed_asks (presenter-AreOutputs proposed.state.messages)
