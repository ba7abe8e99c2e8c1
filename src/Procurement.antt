-- ===== src/Procurement.antt =====
-- modules/procurement: suppliers, orders and receipts.
pub mod SupplierStates
pub mod Suppliers
pub mod SupplierLaws
pub mod Snapshots
pub mod Orders
pub mod Approvals
pub mod OrderCommands
pub mod ReceiptDrafts
pub mod ReceiptTables
pub mod Receipts
pub mod Moves
pub mod OrderMoves
pub mod Posting
pub mod Soundness
pub mod OrderSteps
pub mod ReceiptSteps
pub mod ReceiptChanges
pub mod ReceiptTrace
pub mod Sequences
pub mod ReceiptClaims
pub mod IssueChecks
pub mod IssueLaws
