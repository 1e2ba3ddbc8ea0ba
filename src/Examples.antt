-- ===== src/Examples.antt =====
-- A small ledger of one organisation, and the theorems applied to it.
mod Crypto
pub mod Data
mod Calls
mod Transitions
mod Rules
mod Settings
mod Products
mod Http
mod Handlers
mod Lists
mod Templates
mod Customers
mod Accounts
mod Formats
mod Organisations
