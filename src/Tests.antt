-- ===== src/Tests.antt =====
-- The properties applied to small clusters and pages, and runs of the definitions on them.
pub mod Data
mod Naming
mod Wizards
mod Pages
mod Views
mod Races
mod Forms
pub mod Checked
mod Choices
mod Reopening
mod Polling
pub mod Saved
mod Moves
mod Elements
mod Whole
