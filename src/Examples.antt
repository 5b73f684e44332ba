-- ===== src/Examples.antt =====
-- A small store on which the theorems are run, and their instances.
pub mod Data
mod Stores
mod Deliveries
mod Sync
mod Calendar
mod Meetings
mod Notices
mod Watchers
mod Passes
mod Items
mod Mails
mod Occasions
