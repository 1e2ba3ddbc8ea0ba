-- ===== src/Service/Templates/Laws.antt =====
-- Which layout is an organisation's default, and what its Classic layout is, under the calls of
-- TemplateService.
pub mod Rows
pub mod Statements
pub mod Writes
pub mod Calls
pub mod Edits
pub mod Steps
pub mod Gap
