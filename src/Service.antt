-- ===== src/Service.antt =====
-- The services of internal/invoice, administration, customer, product and template, an operation or
-- two of InvoiceService to a module.
pub mod Snapshots
pub mod Send
pub mod Cancel
pub mod Pay
pub mod Create
pub mod Read
pub mod Settings
pub mod Customers
pub mod Products
pub mod Templates
pub mod Auth
pub mod Users
pub mod Organisations
