-- ===== src/Examples.antt =====
-- Concrete runs, and the theorems applied to them.
mod Asset
mod Ticket
mod Incident
mod Maintenance
mod Inbox
mod Procurement
mod Automation
mod Idempotency
mod Control
mod Auth
mod Identity
mod Scoring
mod Orders
