-- ===== src/Automation.antt =====
-- modules/automation/domain/rules.ts.
pub mod Patterns
pub mod Rules
pub mod Conditions
pub mod Actions
pub mod Values
pub mod Evaluation
pub mod ConditionLaws
pub mod Accepted
pub mod Branches
pub mod Acceptance
pub mod ActionLaws
