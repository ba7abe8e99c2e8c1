-- ===== src/Maintenance.antt =====
-- modules/maintenance.
pub mod Dates
pub mod DateOrder
pub mod Warranty
pub mod WarrantyLaws
pub mod Orders
pub mod OrderTrace
pub mod OrderLaws
pub mod OrderStamps
