-- ===== src/Negotiate.antt =====
-- bertha/src/negotiate: what a client and a server offer one another, how the server picks a pair of
-- stacks and turns its own into one without choices, and how a stack is applied to a nonce.
pub mod Types
pub mod Offers
pub mod Compare
pub mod Pick
pub mod Shift
pub mod Apply
pub mod Monomorphize
pub mod Client
pub mod Server
pub mod ZeroRtt
