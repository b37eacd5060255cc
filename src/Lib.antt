-- ===== src/Lib.antt =====
-- A model of net-module, a TCP server library on epoll in the one-loop-per-thread style, and the
-- theorems about it.
--
-- The program. A main event loop accepts connections; each connection lives on the loop of one IO
-- thread. A loop asks its epoll instance for events (src/Epoller.cpp), and each event leads to a
-- channel (src/Channel.cpp), which runs the callback that fits. The callbacks of a connection
-- (src/Connection.cpp) read bytes into an input buffer and send from an output buffer
-- (src/Buffer.cpp), where each message travels behind a header of four bytes with its length. Other
-- threads hand their sends to the loop through its task queue (src/EventLoop.cpp), and a thread
-- pool (src/ThreadPool.cpp) runs the loops and the user's work.
--
-- The files.
-- Base, with its child modules: names passed on, lists over the native numbers, 32-bit words and
--   their binary digits, maps by association lists, and `Result`, the outcome of code that can
--   throw, end the process, run into undefined behaviour or wait for ever.
-- System: what the code uses of the operating system (epoll_ctl, send, the clock), as parameters;
--   their documented behaviour is in records of laws that theorems take as hypotheses.
-- Buffer: include/Buffer.h and src/Buffer.cpp. `append`, `append_sep`, `erase` and `pick_message`
--   are the member functions; `contents` is `data`. The arithmetic on `int` and `size_t` is written
--   out modulo 2 ^ 32 and 2 ^ 64.
-- Channel: include/Channel.h and src/Channel.cpp. A channel carries its own address and the
--   descriptor of its epoll instance; `enable_reading` and its like, which go through the loop, are in
--   Epoller, and `with_reading` and its like are their effect on the mask.
-- Epoller: include/Epoller.h and src/Epoller.cpp.
-- Connection: include/Connection.h and src/Connection.cpp; Connection.Receive is
--   `onmessageCallback`, Connection.Transmit is `writeCallback`, `send` and `sendInloop`,
--   Connection.Close is `closeCallback` and `errorCallback`; Connection.Events leads from an event of its
--   channel to one of them, and Connection.Events.Looped from `EventLoop::run` on. A `Session` is a
--   connection with the system, what the user keeps and the queue of its loop, in which sends of other
--   connections may stand; what those do is a parameter.
-- EventLoop: include/EventLoop.h and src/EventLoop.cpp. EventLoop.Tasks is the task queue,
--   EventLoop.Wakeup the same with its eventfd, `stop` and the test of `run` as interleaved steps of several
--   threads, EventLoop.Timer is `handletimer`, where an iterator of the table is the key of its entry, and EventLoop.Run is `run`.
-- Acceptor, Socket, InetAddress: the files of these names in include and src. The system calls are
--   parameters.
-- TcpServer: include/TcpServer.h and src/TcpServer.cpp: the tables of connections, the choice of the
--   loop, and the callbacks. A `Service` is a server with the connections in memory. The order in which
--   `newconnection` evaluates the arguments of a new connection, which C++ leaves open, is an argument of its
--   model, `ArgumentOrder`; the order of g++ is `moved_first`. TcpServer.Table has
--   its sequences of connections that come and go, TcpServer.Ownership adds who keeps a connection and
--   which sockets are open, where a life goes on behind the undefined step of the iterator in
--   `handletimer`, and TcpServer.Stopping is `start` and `stop`, the latter as interleaved steps of the threads of the loops, in which a thread is done with its loop when a
--   call of `run` has returned.
-- EchoServer: example/EchoServer.cpp. EchoServer.Bound puts its functions behind those of the server, as
--   callbacks of a connection, and EchoServer.Bound.Exchange has the messages of a client and room to
--   write in any order; EchoServer.Program is its constructor, `Stop`, the signal handler and `main`;
--   EchoServer.Workers is what its worker threads do.
-- Client: example/Client.cpp. `round` is the body of its loop, `play` is `main` behind its first test.
-- PressureTestClient: example/PressureTestClient.cpp; PressureTestClient.Run is its `main`, with
--   `write_event` and `read_event` for the two branches of the loop, and PressureTestClient.Descriptors what
--   it opens and closes.
-- Student: main.cpp.
-- ThreadPool: include/ThreadPool.h and src/ThreadPool.cpp as a relation of interleaved steps.
-- Timestamp: include/Timestamp.h and src/Timestamp.cpp.
-- Simulation: a small operating system in which the laws hold, for the examples in the files named
--   Tests.
--
-- Fuel and bounds. The inner loop of `onmessageCallback` runs on fuel, one unit for each call of
-- `pickMessage`; a run out of it is `err waiting`, and the theorems on delivery give the fuel that is
-- enough. The answers of `read` are a list, as long as an event lasts. Numbers in headers are below
-- 2 ^ 32; an `int` is its pattern of 32 bits, and its overflow wraps around, as compilers have it. The
-- range-for of `handletimer` has one unit of fuel for each entry of the table. The loop of the load
-- generator has one unit for each call of `epoll_wait`; it may run for ever, and what is shown of a
-- return holds for any fuel.
--
-- Not modelled: output to the console but for the messages of the load generator, destructors but for
-- that of a socket, memory exhaustion, and the JSON library in third-party, a copy of another project's.
pub mod Base
pub mod System
pub mod Simulation
pub mod Buffer
pub mod Timestamp
pub mod InetAddress
pub mod Socket
pub mod Channel
pub mod Epoller
pub mod EventLoop
pub mod Connection
pub mod Acceptor
pub mod ThreadPool
pub mod TcpServer
pub mod EchoServer
pub mod Client
pub mod PressureTestClient
pub mod Student
