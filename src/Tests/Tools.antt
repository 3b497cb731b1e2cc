-- ===== src/Tests/Tools.antt =====
-- The tool register_ssi on the sample database, over the row that is there.
use deep_agent_test.Prelude.{text_eq, not, ◌&&◌, arith, find_first}
use deep_agent_test.Infrastructure.Db.{Session}
use deep_agent_test.Infrastructure.Tools.{register_ssi}
use deep_agent_test.Infrastructure.Tools.Registration.{Holds, register_ssi_lem}
use deep_agent_test.Tests.{sample, surroundings}

abbrev session : Session
session = record { work = sample; saved = sample }

register_ssi_lem_example : Holds "NEWBUS33" "5678" "" (
    find_first
      (λ r. text_eq r.lei "LEI1" && (text_eq r.currency "USD" && not r.is_external))
      (register_ssi surroundings "LEI1" "USD" "NEWBUS33" "5678" "" session).1.saved.ssis)
register_ssi_lem_example =
    register_ssi_lem surroundings "LEI1" "USD" "NEWBUS33" "5678" "" session (omega arith)
      (omega arith) (omega arith) (omega arith) (omega arith)
