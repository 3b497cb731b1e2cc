-- ===== src/Domain/Rules.antt =====
-- src/domain/check_rules.py: the rules of FoCheck and BoCheck.
pub mod Fo
pub mod Iban
pub mod Bo
