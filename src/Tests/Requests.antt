-- ===== src/Tests/Requests.antt =====
-- The handlers of the exceptions, the lists, the master data, the settings and the triage.
use deep_agent_test.Prelude.{
  arith, ℕ, ◌≡◌, ◌≤◌, refl, String, true, false, not, Option, none, some, List, [], ◌∷◌, count_if,
  map, text_eq,
}
use deep_agent_test.Result.{ok}
use deep_agent_test.Domain.Entities.{TradeModel, TradeWorkflowStatus, CounterpartyModel}
use deep_agent_test.Domain.Text.{codes, contains}
use deep_agent_test.Domain.Triage.{TriageResult, TriageStatus, StpExceptionModel}
use deep_agent_test.Infrastructure.Db.{Db, with_session}
use deep_agent_test.Infrastructure.ExceptionRepository.{new_exception, with_status}
use deep_agent_test.Infrastructure.Query.{has_part, lower_code, matches, pieces}
use deep_agent_test.Infrastructure.Query.Like.{has_part_lem}
use deep_agent_test.Infrastructure.TradeRepository.Listing.{TradeFilters, is_listed}
use deep_agent_test.Infrastructure.TriageRepository.{put_run}
use deep_agent_test.Infrastructure.TriageRepository.Laws.{view, kept}
use deep_agent_test.Presentation.Exceptions.{
  StpExceptionCreateRequest, create_stp_exception, get_stp_exception, update_stp_exception_status,
}
use deep_agent_test.Presentation.Exceptions.Opening.{exception_life}
use deep_agent_test.Presentation.Masters.{
  CounterpartyUpdateRequest, get_counterparty, update_counterparty,
}
use deep_agent_test.Presentation.Masters.Editing.{IsShort, update_counterparty_lem}
use deep_agent_test.Presentation.Trades.Listing.{list_trades}
use deep_agent_test.Presentation.Trades.Listing.Laws.{list_trades_lem}
use deep_agent_test.Presentation.Triage.{start_triage_run, resume_triage_run}
use deep_agent_test.Presentation.Triage.Recording.{triage_recorded}
use deep_agent_test.Tests.{sample, surroundings, trade_row, counterparty_row}
use deep_agent_test.Infrastructure.Seed.{seed_database, reset_and_seed}
use deep_agent_test.Infrastructure.Seed.Seeding.{seeding-IsValid}
use deep_agent_test.Infrastructure.Validity.{IsValid}
use deep_agent_test.Tests.Events.{sample-IsValid, triage_keeps}

-- The sample with a trade that is Initial.
abbrev entered : TradeModel
entered = trade_row "T9" 1 true TradeWorkflowStatus.initial

abbrev with_entered : Db
with_entered = record sample { trades = entered ∷ sample.trades }

abbrev body : StpExceptionCreateRequest
body = record { trade_id = "T9"; error_message = "late" }

abbrev opened : StpExceptionModel
opened = new_exception surroundings 2 "T9" "late"

abbrev after_create : Db
after_create = record with_entered { exceptions = opened ∷ []; next_id = 3 }

abbrev after_update : Db
after_update = record after_create { exceptions = with_status surroundings "RESOLVED" opened ∷ [] }

exception_life_example :
    (with_session (create_stp_exception surroundings body) with_entered ≡ (ok opened, after_create))
    × (with_session (update_stp_exception_status surroundings 2 "RESOLVED") after_create
        ≡ (ok (with_status surroundings "RESOLVED" opened), after_update))
    × ((with_session (get_stp_exception 2) after_update).0
        ≡ ok (with_status surroundings "RESOLVED" opened))
exception_life_example =
    exception_life surroundings body "RESOLVED" with_entered entered refl refl refl refl
      (omega arith) (omega arith) 2

abbrev edit : CounterpartyUpdateRequest
edit = record { name = some "Acme Ltd"; bic = none; is_active = some false }

abbrev edited_row : CounterpartyModel
edited_row = record counterparty_row { name = "Acme Ltd"; is_active = false; updated_at = 5 }

update_counterparty_lem_example :
    ((with_session
        (get_counterparty "LEI1")
        (with_session (update_counterparty surroundings "LEI1" edit) sample).1).0
      ≡ (with_session (update_counterparty surroundings "LEI1" edit) sample).0)
    × (with_session (update_counterparty surroundings "LEI1" edit) sample
        ≡ (ok edited_row, record sample { counterparties = edited_row ∷ [] }))
update_counterparty_lem_example =
    update_counterparty_lem surroundings "LEI1" edit sample
      (IsShort.short "Acme Ltd" refl (omega arith)) (IsShort.omitted refl) "LEI1"

abbrev all_trades : TradeFilters
all_trades = record { trade_id = none; workflow_status = none; trade_date = none }

list_trades_lem_example :
    (items : List (TradeModel × Option String)) × (total : ℕ) × (with_session
        (list_trades all_trades 20 0)
        sample
      ≡ (ok (items, total), sample))
    × (count_if (λ item. text_eq item.0.trade_id "T1") items ≤ 1)
    × (count_if (λ item. not (is_listed all_trades item.0)) items ≡ 0)
    × (total ≡ count_if (is_listed all_trades) sample.trades)
list_trades_lem_example =
    list_trades_lem all_trades 20 0 sample "T1" refl sample-IsValid.trades_consistent

has_part_lem_example :
    has_part "trd" "TRD-001"
    ≡ contains (map lower_code (codes "TRD-001")) (map lower_code (codes "trd"))
has_part_lem_example = has_part_lem "trd" "TRD-001" refl

-- A percent sign stands for any text.
wildcard : has_part "T%1" "TRD-001" ≡ true
unfolding has_part pieces matches
wildcard = refl

abbrev finished : TriageResult
finished = record {
  trade_id = "T1";
  status = TriageStatus.completed;
  run_id = some "r1";
  pending_action_type = none;
  pending_action_description = none;
  diagnosis = some (codes "no SSI");
  root_cause = none;
  recommended_action = none;
  action_taken = true;
  steps = [];
  agent_type = "bo";
}

abbrev recorded : Db
recorded = record sample { runs = put_run surroundings 2 finished none []; next_id = 3 }

triage_recorded_example :
    (with_session (start_triage_run surroundings (λ db. (ok finished, db))) sample
      ≡ (ok finished, recorded))
    × (with_session (resume_triage_run surroundings (λ db. (ok finished, db))) sample
        ≡ (ok finished, recorded))
    × (view recorded.runs "r1" ≡ some (kept finished none))
triage_recorded_example =
    triage_recorded surroundings (λ db. (ok finished, db)) sample sample finished refl "r1" "r1"
      refl refl

seeding-IsValid_example :
    IsValid (with_session (seed_database surroundings) sample).1
    × IsValid (with_session (reset_and_seed surroundings) sample).1
seeding-IsValid_example = seeding-IsValid surroundings triage_keeps sample sample-IsValid
