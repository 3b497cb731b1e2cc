-- ===== src/Domain.antt =====
-- src/domain: the pure business logic.
pub mod Dates
pub mod Numbers
pub mod Json
pub mod Triage
pub mod Text
pub mod Classification
pub mod Entities
pub mod Rules
