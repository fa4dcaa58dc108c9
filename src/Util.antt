-- ===== src/Util.antt =====
-- bertha/src/util.rs: connections that match responses to requests, and that split a socket by address.
pub mod Matcher
pub mod Matched
pub mod Answered
pub mod Steer
pub mod Steered
