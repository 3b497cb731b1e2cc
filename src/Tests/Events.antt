-- ===== src/Tests/Events.antt =====
-- The event API on the sample database.
use deep_agent_test.Prelude.{
  ◌≡◌, refl, arith, any, text_eq, not, ◌&&◌, ◌==◌, true, false, none, some, eq_iff, find_first,
}
use deep_agent_test.Domain.Entities.{
  TradeModel, TradeEventModel, TradeWorkflowStatus, EventWorkflowStatus, amend, cancel,
}
use deep_agent_test.Infrastructure.TradeRepository.{is_current_of}
use deep_agent_test.Presentation.TradeEvents.Moves.{Moved, TriageSilent}
use deep_agent_test.Presentation.TradeEvents.Lifecycle.{request-Moved}
use deep_agent_test.Presentation.TradeEvents.Rejection.{TakenBack, reject_amend}
use deep_agent_test.Presentation.TradeEvents.Guards.{Refused, request-Refused}
use deep_agent_test.Presentation.TradeEvents.Activation.{amend_activates}
use deep_agent_test.Result.{err, http}
use deep_agent_test.Infrastructure.Db.{Session, ◌>>=◌}
use deep_agent_test.Infrastructure.Validity.{IsValid}
use deep_agent_test.Infrastructure.Validity.Engine.{TriageKeeps}
use deep_agent_test.Presentation.TradeEvents.{
  TradeEventCreateRequest, create_event, bo_approve, request, approve, reject, create_trade_event,
}
use deep_agent_test.Presentation.TradeEvents.Atomicity.{request_atomic}
use deep_agent_test.Presentation.TradeEvents.Validity.{request-IsValid}
use deep_agent_test.Tests.{sample, surroundings, trade_row, event_row}

pub sample-IsValid : IsValid sample
sample-IsValid = record {
  trades_consistent = record {
    versions = λ t v. ground (
      arith,
      eq_iff "T1" t,
      eq_iff "T2" t,
      eq_iff "T3" t,
      eq_iff "T1" "T2",
      eq_iff "T1" "T3",
      eq_iff "T2" "T3",
    );
    current = λ t. ground (
      arith,
      eq_iff "T1" t,
      eq_iff "T2" t,
      eq_iff "T3" t,
      eq_iff "T1" "T2",
      eq_iff "T1" "T3",
      eq_iff "T2" "T3",
    );
  };
  one_pending = λ t. ground (arith, eq_iff "T1" t, eq_iff "T2" t, eq_iff "T1" "T2");
  ids_unique = λ i. ground arith;
  ids_below = λ i b. ground arith;
}

pub triage_keeps : TriageKeeps surroundings IsValid
triage_keeps = record { fo = λ t c db h. h; bo = λ t c db h. h }

abbrev second_request : TradeEventCreateRequest
second_request = record {
  event_type = "CANCEL";
  reason = "again";
  requested_by = "fo_user_02";
  amended_fields = none;
}

in_flight : (request surroundings (create_event "T1" second_request) sample).0 ≡ err (http 409)
unfolding request create_trade_event ◌>>=◌
in_flight = refl

request_atomic_example : (request surroundings (create_event "T1" second_request) sample).1 ≡ sample
request_atomic_example =
    request_atomic surroundings (create_event "T1" second_request) sample (http 409) in_flight

request-IsValid_example : IsValid (request surroundings (bo_approve 0 true) sample).1
request-IsValid_example =
    request-IsValid surroundings (bo_approve 0 true) sample triage_keeps sample-IsValid

request-Refused_example :
    request surroundings (create_event "T1" second_request) sample ≡ (err (http 409), sample)
request-Refused_example =
    request-Refused surroundings (create_event "T1" second_request) 409 sample (
      Refused.in_flight "T1" second_request cancel
        (trade_row "T1" 1 true TradeWorkflowStatus.event_pending)
        (event_row 0 "T1" 1 2 amend EventWorkflowStatus.fo_validated) refl refl refl refl)

abbrev session : Session
session = record { work = sample; saved = sample }

abbrev amendment : TradeEventModel
amendment = event_row 0 "T1" 1 2 amend EventWorkflowStatus.fo_validated

abbrev second_version : TradeModel
second_version = trade_row "T1" 2 false TradeWorkflowStatus.event_pending

amend_activates_example :
    (find_first (is_current_of "T1") (approve surroundings amendment amend session).1.work.trades
      ≡ some (record second_version {
        workflow_status = TradeWorkflowStatus.initial;
        is_current = true;
        updated_at = 5;
      }))
    × (find_first (is_current_of "T2") (approve surroundings amendment amend session).1.work.trades
        ≡ find_first (is_current_of "T2") sample.trades)
amend_activates_example =
    amend_activates surroundings amendment second_version session "T2" refl refl

triage_silent : TriageSilent surroundings
triage_silent = record { fo = λ t c db. refl; bo = λ t c db. refl }

request-Moved_example : Moved 0 amendment (request surroundings (bo_approve 0 false) sample).1
request-Moved_example =
    request-Moved surroundings (bo_approve 0 false) sample 0 amendment triage_silent refl

reject_amend_example :
    (any
        (λ r. text_eq r.trade_id "T1" && r.version == 2 && not r.is_current)
        (reject surroundings amendment session).1.work.trades
      ≡ false)
    × TakenBack 5
        (trade_row "T1" 1 true TradeWorkflowStatus.event_pending)
        (find_first (is_current_of "T1") (reject surroundings amendment session).1.work.trades)
reject_amend_example =
    reject_amend surroundings amendment (trade_row "T1" 1 true TradeWorkflowStatus.event_pending)
      session refl refl
