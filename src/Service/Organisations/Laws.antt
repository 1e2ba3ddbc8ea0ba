-- ===== src/Service/Organisations/Laws.antt =====
-- Organisations and registration: what their calls leave of the tables.
pub mod Statements
pub mod Founded
pub mod Registered
pub mod Whole
pub mod Kept
pub mod Taxed
pub mod TaxSteps
