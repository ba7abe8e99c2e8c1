-- ===== src/Ticket.antt =====
-- modules/ticket/application/ticket.ts.
pub mod States
pub mod Store
pub mod Commands
pub mod Laws
pub mod Invariant
pub mod Endings
