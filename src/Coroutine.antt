-- ===== src/Coroutine.antt =====
-- coroutine: the memory that coroutines run on, and how a thread passes control between them,
-- and the pool of them.
pub mod Memory
pub mod Switch
pub mod Pool
pub mod Hook
