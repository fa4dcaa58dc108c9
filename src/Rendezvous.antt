-- ===== src/Rendezvous.antt =====
-- bertha/src/negotiate/rendezvous.rs: endpoints that meet at an address of a shared store agree on a
-- stack, and change it together while they use it.
pub mod Effects
mod Post
pub mod Backend
pub mod Stacks
pub mod Handles
pub mod Start
pub mod Monitor
pub mod Loop
pub mod Upgrade
mod Preserved
pub mod Commits
pub mod Told
pub mod InStep
pub mod Preferences
pub mod Notices
pub mod Search
pub mod Joins
pub mod Steps
pub mod Switch
pub mod Failures
