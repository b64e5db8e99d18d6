-- ===== src/Reactor.antt =====
-- net/base/reactor.cpp: the loop that waits for events, and the queues of coroutines that are ready
-- to run.
pub mod TaskQueue
pub mod Events
pub mod Loop
