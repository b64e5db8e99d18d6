-- ===== src/Lib.antt =====
-- tirpc, a framework for remote procedure calls in C++ over coroutines and epoll.
--
-- A connection (tirpc/net/tcp) reads bytes into a TcpBuffer, a codec takes packages off its front,
-- a dispatcher answers them, and the codec appends the reply to the buffer that the connection
-- writes out.
--
-- Prelude       bytes, signed integers, and how a call ends: with a value, in undefined behaviour
--               (`fault`) or in an exception of the standard library (`throws`).
-- Buffer        tirpc/net/tcp/tcp_buffer.cpp: one function for each method. Contents has the view as a
--               queue and the invariant, Writing and Reading the effect of each call,
--               Refinement any sequence of calls.
-- MsgReq        tirpc/common/msg_req.cpp: GenMsgNumber is `gen_msg_number`. Digits has the next
--               number, Counting the calls of a thread.
-- Rpc.Data      tirpc/net/rpc/rpc_data.hpp.
-- Rpc.NetByte   tirpc/net/base/byte.hpp, with `htonl`.
-- Rpc.Codec     tirpc/net/rpc/rpc_codec.cpp: Encode is `encode`, Decode is `decode`, whose parts are named
--               for the field that they start from. Frame says how a package is found, Fields how its
--               header is read, RoundTrip puts both functions together, Malformed has forged packages,
--               Consuming what a decoded package takes out of the buffer.
-- Coroutine.Memory  tirpc/coroutine/memory.cpp: GetBlock is `get_block`, BackBlock `back_block`.
--               Blocks has the invariant and what a block is good for.
-- Coroutine.Switch  tirpc/coroutine/coroutine.cpp: Yield is `yield_cor`, Resume `resume_cor`. Alternation has
--               sequences of them.
-- Coroutine.Pool  tirpc/coroutine/coroutine_pool.cpp over the two above. Giving is about who gets which,
--               Making about the constructor.
-- Coroutine.Hook  tirpc/coroutine/coroutine_hook.cpp over Reactor.Events and Timer. Parking is about the
--               descriptor while its coroutine waits.
-- Mutex         CoroutineMutex of tirpc/common/mutex.cpp. Waking has the queue of sleepers.
-- ThreadPool    tirpc/common/thread_pool.cpp, with two steps for a round of a worker. Racing has one
--               worker, and two.
-- Log           tirpc/common/log.cpp: LogEvent::Log is `log_event`, Execute is `execute`. Buffers has the way into
--               the queues, Files the way out of them.
-- Address       tirpc/net/base/address.cpp. Printing has addresses that are printed and read again.
-- Config        tirpc/common/config.hpp and config.cpp: LoadFromYaml is `load_from_yaml`. Loading says what it
--               does to each variable.
-- Server        tirpc/net/tcp/io_thread.cpp and tcp_server.cpp. Threads has the choice of a thread,
--               Accepting the loop that accepts.
-- Reactor.TaskQueue  CoroutineTaskQueue of tirpc/net/base/reactor.cpp. Stealing has what threads take.
-- Reactor.Events  tirpc/net/base/fd_event.cpp, and AddEvent, DelEvent and AddTask of reactor.cpp. Interest
--               has what epoll watches, Pending what other threads ask for and the container.
-- Reactor.Loop  Reactor::Loop. Draining has the queue of ready coroutines, Keeping the invariant.
-- TimeWheel     tirpc/net/tcp/tcp_connection_time_wheel.cpp: Fresh is `fresh`, LoopFunc `loop_func`.
--               Lifetime says how long a slot is held.
-- Timer         tirpc/net/base/timer.cpp. Ordering has the order of the events, Firing what runs and when.
-- StringUtil    SplitStrToVector and SplitStrToMap of tirpc/common/util.cpp. Searches has texts whose parts
--               are known, Splitting one separating byte, Lines the separator of headers.
-- Http          tirpc/net/http/http_codec.cpp: Decode is `decode`, Encode is `encode`. Line has the request
--               line, Request whole requests, Lines a header line that ends early.
-- Http.Servlet  tirpc/net/http/http_servlet.cpp, with the texts of http_define.cpp. Files has types of files.
-- Http.Dispatcher  tirpc/net/http/http_dispatcher.cpp: Dispatch is `dispatch`. Closing is about HTTP/1.0,
--               Endless about the loop of Execute over one line.
-- Connection    tirpc/net/tcp/tcp_connection.cpp: Input is `input`, Execute `execute`, Output `output`.
--               Packages has `execute` and the kept replies, Closing the descriptor, Receiving and
--               Sending the bytes, Ending the end of Output, Executing the loop over packages.
-- Client        tirpc/net/tcp/tcp_client.cpp: SendAndRecvTinyPb is `send_and_recv_tiny_pb`. Waiting is
--               about a peer that closes.
-- Balance       tirpc/net/tcp/load_balance.hpp, with the digest of tirpc/common/md5.cpp. Digests has short ones;
--               Selectors the selectors of consistent hashing, Building and Ring the
--               order of their nodes.
-- Rpc.Dispatcher  tirpc/net/rpc/rpc_dispatcher.cpp: Dispatch is `dispatch`. Answering is about a reply and
--               who reads it, Serving about the codec, the dispatcher and Execute together.
-- Rpc.Channel   tirpc/net/rpc/rpc_channel.cpp: CallMethod is `call_method`, its loop `retry`. Retrying has
--               calls whose attempts fail.
-- Rpc.Async     tirpc/net/rpc/rpc_async_channel.cpp. Waiting has a caller that waits, and what comes back.
--
-- Bytes are numbers below 256 where the code relies on it. An `int` is an unbounded integer, except
-- where a number from the network is added to an index, where a TcpBuffer grows, and where a memory for
-- stacks is made: there an overflow is a fault. Loops run on
-- the number of rounds that the source computes, or on a bound that is proved to be enough: the length
-- of the text for SplitStrToVector, one more than the queue for PopSome in Reactor::Loop, one more than the bytes in the buffer for Execute
-- of a server of TinyPb, the height of a file of settings for ListAllMember.
--
-- Not modelled: log lines (but for what Yield and Resume do in them), locks that one step holds, and null checks that no caller can trip; the components that the
-- manifest names as such, among them everything that only calls the system or another library.
mod Prelude
pub mod Buffer
pub mod Client
pub mod Balance
pub mod Address
pub mod Config
pub mod Log
pub mod Server
pub mod MsgReq
pub mod Mutex
pub mod ThreadPool
pub mod Rpc
pub mod Coroutine
pub mod Reactor
pub mod TimeWheel
pub mod Timer
pub mod StringUtil
pub mod Http
pub mod Connection
mod Tests
