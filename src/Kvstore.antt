-- ===== src/Kvstore.antt =====
-- kvstore/src: the store, its messages, and the client over `MsgIdMatcher`.
pub mod Messages
pub mod KvClient
pub mod Served
