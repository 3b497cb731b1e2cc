-- ===== src/Presentation.antt =====
-- src/presentation/routers: the handlers of the HTTP API.
pub mod TradeEvents
pub mod Trades
pub mod Rules
pub mod Exceptions
pub mod Settings
pub mod Masters
pub mod Triage
