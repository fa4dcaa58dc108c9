-- ===== src/Redis.antt =====
-- redis-basechunnel/src: the store of a rendezvous in Redis, with the Lua scripts tryinit.lua,
-- pollentry.lua and transition.lua.
pub mod Store
pub mod Scripts
pub mod Waits
pub mod Commit
pub mod Operations
pub mod Notify
pub mod Frames
pub mod Pipes
pub mod Rounds
mod Quiet
mod Turns
mod Ends
mod Acks
pub mod Mutual
pub mod Retries
