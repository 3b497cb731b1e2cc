-- ===== src/Infrastructure.antt =====
-- src/infrastructure: the database, the repositories, the rule engine and the agents.
pub mod Db
pub mod Runtime
pub mod Columns
pub mod TradeRepository
pub mod EventRepository
pub mod RuleEngine
pub mod Consistency
pub mod Validity
pub mod Tools
pub mod Calendar
pub mod Query
pub mod TriageRepository
pub mod ExceptionRepository
pub mod MasterData
pub mod Seed
