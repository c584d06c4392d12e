-- ===== src/Lib.antt =====
-- The echo server: a library of epoll event loops, buffered TCP connections and a server that sends
-- back what it receives, and the last stage of the teaching reactor beside it.
--
-- The parts, and the files that model them:
--   Buffer         include/buffer.h, src/buffer.cpp. A vector of bytes with a read and a write
--                  index. Positions are numbers, a pointer into the vector is its index, and sums
--                  and differences of size_t are taken modulo 2 ^ 64. Buffer/ holds the invariant,
--                  making room, each operation against the queue of bytes that a buffer stands for,
--                  the searches, and the refinement of any sequence of operations to that queue.
--   Handler        EventHandler of include/event_loop.h: the masks of epoll and the dispatch of an
--                  event to the callbacks. A callback is represented by whether it is set.
--   Connection     include/connection.h, src/connection.cpp. Every member function is an action
--                  that changes the connection and leaves a list of effects: bytes that the kernel
--                  accepts, calls of the event loop, callbacks and posted tasks. Connection/ holds
--                  the operations, what they do to the bytes on their way, the echo of
--                  EchoServer::defaultMessageCallback, what other threads post, shutting down, and
--                  the life of a connection.
--   EventLoop      EventLoop of include/event_loop.h, src/event_loop.cpp: the handlers by
--                  descriptor, the tasks, the eventfd as the number of its unread signals, and the
--                  rounds of run over a larger state that the handlers and tasks change. Wakeup is
--                  the interleaving of posting threads with the loop as a step relation.
--   EchoServer     include/echo_server.h, src/echo_server.cpp: start, stop, the map of connections
--                  and the choice of a worker loop. What it asks of the other parts is a list.
--   Peer           A connection as its worker meets it: the callbacks that the server sets, with the
--                  kernel's answers and the bytes that came in and went out.
--   System         src/echo_server.cpp with its worker threads: the main loop and the workers, each
--                  an EventLoop over its Peers, as a step relation.
--   Socket         include/socket.h, src/socket.cpp: the descriptor, who owns it, and the system
--                  calls of each operation.
--   Client         examples/client.cpp: the test client's benchmark, interactive mode and options.
--   Logger, Main   include/logger.h, src/logger.cpp and src/main.cpp: the command line, the log and
--                  the exit code.
--   Reactor        wd_reactor_server/Reactor_v4: reading and writing whole messages (SocketIO.cc),
--                  the queue of tasks with its mutex and condition variables (TaskQueue.cc), the
--                  pool of threads over it (ThreadPool.cc), the connections (TcpConnection.cc) and
--                  their event loop (EventLoop.cc) with the callbacks of TestTcpServer.cc. Server is
--                  the I/O thread with the threads of the pool as a step relation. Direct is the loop
--                  of Reactor_v3, which answers at once. TcpServer holds Socket.cc, Acceptor.cc and
--                  TcpServer.cc, and InetAddress the addresses.
--   Prelude        what the files share: Boolean tests, lists and bytes over the native numbers,
--                  size_t, int, and the results of system calls.
--
-- How they meet: an event reaches a handler in EventLoop, the handler's callback is an operation of
-- Connection, and its effects go back to EventLoop (EventLoop/Handlers joins the two). A connection
-- reads into and writes from Buffers. EchoServer creates the connections and gives each a loop.
-- System puts these together; what its threads share are the queues of tasks, so a round of a worker
-- and each task of the main loop are one step.
--
-- Kernel and C library: what a system call returns is an argument of the operation that makes it,
-- and for loops a list with one answer for each call (SocketIo) or each round (EventLoop). The C
-- library's atoi and its functions on addresses are arguments of the definitions that use them.
--
-- Bounds and fuel: theorems on Buffer assume that the vector stays below 2 ^ 62 bytes, so that no
-- sum wraps. EchoServer's counter of loops is an int kept as a 32-bit pattern; its counter of names
-- is a number without bound, where the code has an int, so the theorems on names are about fewer
-- than 2 ^ 31 connections. The rounds of readline run on fuel: the room in the buffer is enough where
-- a line is to come, and where none is the loop does not end with any fuel. The decimal digits of a
-- number run on fuel as well: ten digits, which is what an int has at most.
--
-- Not modelled: log lines and printed texts, what of Reactor_v1 to Reactor_v3 is the same file in a
-- later stage, their test programs but that of Reactor_v3, and the generated build directory.
pub mod Buffer
pub mod Client
pub mod Connection
pub mod EchoServer
pub mod EventLoop
pub mod Handler
pub mod Logger
pub mod Main
pub mod Peer
pub mod Prelude
pub mod Reactor
pub mod Socket
pub mod System
