-- ===== src/Tests.antt =====
-- The theorems at concrete inputs, and runs of the definitions that can be followed in the source.
mod Handshake
mod Client
mod Server
mod ZeroRtt
mod Segments
mod Requests
mod Rendezvous
mod Joining
mod Upgrading
mod Redis
mod Commits
mod Matching
mod Steering
mod Kvstore
