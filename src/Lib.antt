-- ===== src/Lib.antt =====
-- A model of the STP exception triage service: trades pass the Front-Office and the Back-Office
-- check, agents investigate failed checks under an operator's approval, and amendments and
-- cancellations of trades pass two approvals.
--
-- The parts and how they interact. The routers (Presentation) run handlers in a database session
-- of their own. The handlers use the repositories and the rule engine (Infrastructure), which runs
-- the rules (Domain) on the current version of a trade and stores the outcome; a failed check may
-- start an agent (Agents). An agent is a graph of nodes that call tools; each tool runs in a session
-- of its own, and the graph halts before a node that needs the operator's approval.
--
-- Which file models which part, by paths from the repository's root without the leading src/:
--   Domain/Dates, Domain/Numbers, Domain/Text: the parts of Python's date, Decimal and str in use
--   Domain/Classification: src/domain/trade_classification.py
--   Domain/Rules/Fo, Domain/Rules/Bo, Domain/Rules/Iban: src/domain/check_rules.py
--   Domain/Entities, Domain/Triage: src/domain/entities.py and src/infrastructure/db/models.py
--   Domain/Json: JSON values as Python's json reads them
--   Infrastructure/Db: src/infrastructure/db/session.py. A session is the state that the transaction
--     works on beside the committed one; `Exec` is an action of a session that may raise
--   Infrastructure/Columns: the bounds of the columns in src/infrastructure/db/models.py
--   Infrastructure/Query: the pages and the text filters of SQLAlchemy's queries
--   Infrastructure/TradeRepository: src/infrastructure/db/trade_repository.py
--   Infrastructure/TriageRepository, Infrastructure/ExceptionRepository: repository.py and
--     stp_exception_repository.py there
--   Infrastructure/MasterData: counterparty_repository.py, ssi_repository.py and
--     reference_data_repository.py there
--   Infrastructure/EventRepository: trade_event_repository.py and app_setting_repository.py there
--   Infrastructure/RuleEngine: src/infrastructure/rule_engine.py
--   Infrastructure/Seed: src/infrastructure/seed.py
--   Infrastructure/Calendar: src/infrastructure/calendar_service.py
--   Infrastructure/Tools: src/infrastructure/tools.py, with ssi_repository.py and
--     counterparty_repository.py as far as the tools write. Tools/Reading,
--     Tools/Feedback and Tools/History have the tools that read
--   Agents/Bo: src/infrastructure/bo_agent.py and bo_triage_use_case.py. Agents/Bo itself holds the state
--     and the edges, Handlers and Nodes the nodes, and Graph the runs
--   Agents/Results, Agents/Bo/Results, Agents/Fo/Results: what the use cases make of a run's end
--   Agents/Fo: src/infrastructure/fo_agent.py and fo_triage_use_case.py
--   Presentation/TradeEvents: src/presentation/routers/trade_events.py
--   Presentation/Trades: src/presentation/routers/trades.py
--   Presentation/Exceptions, Presentation/Triage, Presentation/Masters, Presentation/Settings,
--     Presentation/Rules: stp_exceptions.py; bo_triage.py, fo_triage.py and triage_history.py;
--     counterparties.py, ssis.py and reference_data.py; settings.py; rules.py there
-- Functions keep their names; a leading underscore is dropped, and a part of a handler that has a
-- name of its own stands beside it. Infrastructure/Consistency and
-- Infrastructure/Validity hold the invariant of the database. Tests holds a sample database, runs on
-- it, and each theorem applied to a case.
--
-- State and operations. A table is a list of rows in the order of insertion, and `.first()` is its
-- first match. A date is its ordinal, an amount a coefficient with a number of decimal places; NaN
-- is left out. The UUIDs of rows are the numbers of one counter. Exceptions are values, with
-- HTTPException as its status code. A text longer than its column, or a number with more digits,
-- is a database error of the operation that would flush it, and amounts are rounded to the places
-- of their columns; the operations with that test are the insertions of trades, events and
-- exceptions, the status of an exception, and the edits of counterparties and settlement
-- instructions. What becomes of a value in a text column that is no text is a parameter. A run of
-- an agent is a relation on configurations (node, state, database) that counts the approvals; the
-- language model is an arbitrary reply at each of its nodes.
--
-- Parameters. `Runtime` holds the time, the packages and services that the code calls, and the
-- automatic start of an agent; `AgentRuntime` what the agents take from langchain, from json and from
-- the retrieval service. Where a theorem about requests assumes something of the automatic start, its
-- entry says so.
--
-- Bounds and fuel. The loop over days has as fuel the distance of the two dates, and the loop over a
-- number's digits one more than the number; both never run out. The loop that assigns a trade's
-- identifier has the 32 rounds of the code. Everything else is structural. The sizes and offsets of
-- pages are natural numbers.
--
-- Not modelled: the length of the other texts that are stored (those of triage runs and steps, of
-- settings, and the identifiers of trades that the allocation makes, all taken to fit their
-- columns); that PostgreSQL cuts spaces off the end of a text that is too long; interleavings of
-- requests, but for what other sessions commit between the rounds in which a trade is created;
-- timestamps within one request (they are equal); the order that SQL leaves open among rows with
-- equal keys (it is that of insertion); case and digits beyond ASCII in the text filters; amended
-- fields that are JSON but no object; the database that is not configured; floating-point costs
-- and the choice of the language model; the storing of results for retrieval; and the parts that
-- only format, log or call a network.
pub mod Prelude
pub mod Result
pub mod Domain
pub mod Infrastructure
pub mod Agents
pub mod Presentation
pub mod Tests
