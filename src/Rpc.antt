-- ===== src/Rpc.antt =====
-- net/rpc: the packages of the TinyPb protocol, their codec and the dispatch of requests,
-- and the channel that sends them.
pub mod NetByte
pub mod Data
pub mod Codec
pub mod Dispatcher
pub mod Channel
pub mod Async
