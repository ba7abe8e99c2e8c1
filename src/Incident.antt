-- ===== src/Incident.antt =====
-- modules/incident.
pub mod Correlation
pub mod CorrelationLaws
