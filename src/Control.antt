-- ===== src/Control.antt =====
-- modules/control-plane/application: approvals and service levels.
pub mod Approval
pub mod ApprovalLaws
pub mod Sla
pub mod SlaLaws
