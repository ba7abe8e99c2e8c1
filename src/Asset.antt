-- ===== src/Asset.antt =====
-- modules/asset/application/lifecycle.ts.
pub mod States
pub mod Store
pub mod Lifecycle
pub mod Returns
pub mod Graph
pub mod Trace
pub mod Outcomes
pub mod Invariant
pub mod Isolation
pub mod Reservations
pub mod Custody
pub mod ReturnTrip
pub mod Cancellation
pub mod Receipt
pub mod Scoring
pub mod ScoringLaws
