-- ===== src/Checker/Verdicts.antt =====
-- internal/checker: when a check reports what.
pub mod Web
pub mod Words
pub mod Names
pub mod Types
