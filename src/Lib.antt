-- ===== src/Lib.antt =====
-- A model of the Light Reactor TCP framework (C++17, namespace TcFrame), with proofs about it.
--
-- The program: an `EventLoop` waits in a `Poller` for ready descriptors, hands each to its `Channel`,
-- runs the functors that other threads queued, and fires its timers. A `TcpConnection` owns a socket,
-- a channel and two `Buffer`s, and registers its channel with the poller of its loop. A
-- `LengthFieldCodec` cuts the bytes of a connection into messages. A `TcpClient` makes a connection
-- and is told when it ends. A `TcpServer` takes new sockets from its `Acceptor` on the main loop,
-- hands each to one of its sub loops, keeps the connections in a table, closes the idle ones, and
-- stops when they have ended or at a deadline. A `Socket` owns a descriptor. A `ThreadPool` runs
-- tasks on its own threads, and a `Logger` writes events on a thread of its own. `main` makes an echo
-- server of these.
--
-- The files and the code that each models (paths from the repository's root):
--   Prelude        shared names, Boolean tests, lists over the native numbers, machine words, results
--   Buffer         include/buffer.h and src/buffer.cpp: `Buffer` is its storage and two indices.
--                  Io has ReadFromFd, WriteToFd and the integers, Search has FindCRLF and FindEOL;
--                  View says what a buffer holds; Space, Refine, Sequences, ReadWrite, Integers and
--                  FirstMatch have the proofs
--   Codec          include/length_field_codec.h and src/length_field_codec.cpp: OnMessage, Send and
--                  HandleHeartbeat. Frames reads a stream of bytes on its own; Decoding and Streams
--                  compare OnMessage with it
--   Channel        include/channel.h and src/channel.cpp: the masks and HandleEvent (Dispatch)
--   Poller         include/poller.h: the interface, a record of operations and laws.
--                  Epoll (with Poll) is src/epoll_poller.cpp, and fills it; so does WsPoll, which is
--                  src/wspoll_poller.cpp (Index, Updates and Watching have the proofs, Ready has
--                  Poll). Agreement compares the two
--   TcpConnection  include/tcpconnection.h and src/tcpconnection.cpp, over any poller. Handlers has
--                  HandleRead, HandleWrite, HandleClose and HandleError, Calls has ConnectEstablished,
--                  ConnectDestroyed, Send, Shutdown and ForceClose; Invariant, Closing, Sending,
--                  Ready, Writing, Runs, Bytes, Delivery and Defects have the proofs
--   TcpClient      include/tcpclient.h and src/tcpclient.cpp (Connecting has the proofs)
--   SocketUtils    include/socket_utils.h and src/socket_utils.cpp, on Linux: the system calls of each
--                  function for any answers of the system (Flags and Descriptors have the proofs)
--   Address        include/address.h and src/address.cpp (Text and RoundTrip have the proofs)
--   Socket         include/socket.h and src/socket.cpp: who owns a descriptor (Ownership), the result
--                  of Connect as TcpClient reads it (Connecting), and the system calls of the
--                  constructors, Accept, Bind and Listen (Options)
--   Acceptor       include/acceptor.h and src/acceptor.cpp, over any poller (Listening has the proofs)
--   TcpServer      include/tcpserver.h and src/tcpserver.cpp, over any poller. Removal has
--                  HandleRemoveConnection and FinalizeGracefulStop(false), Calls the other calls, Runs
--                  a server over any sequence of events, Metrics GetStats and GetPrometheusMetrics.
--                  Counting, Counters, RoundRobin, Closing, Stopping, Forcing, Deadline, Ending, Defects,
--                  Accepting and Idle have the proofs, Metrics/Totals and Metrics/Removal those on
--                  the metrics
--   EventLoop      include/eventloop.h and src/eventloop.cpp: QueueInLoop, DoPendingFunctors, the
--                  timers and the poll timeout; Cycle has the turns of Loop (Functors, Timers, Actions,
--                  Rounds and Turns have the proofs). Lifecycle has the constructor, the loop's thread, Quit
--                  and the destructor, over any poller (Flags, Ending and Wakeup have the proofs)
--   ThreadPool     include/thread_pool.h and src/thread_pool.cpp: Commit, WorkerLoop, Resize and Shutdown
--                  (Order has the proofs)
--   Logger         include/logger.h and src/logger.cpp: Init, LogLoop and Shutdown; Calls has the calls
--                  that write, Files the appenders' lines and files, with include/log_utils.h and
--                  src/log_utils.cpp (Order and Files/Days have the proofs)
--   Program        main.cpp: the arguments, and the callbacks of the echo server on a connection
--                  (Replies, Echo, Serving, Writing and History have the proofs). Stopping has the signal
--                  handler and the timer that looks at its flag (Interrupt has the proofs)
--   Examples       the theorems at concrete inputs
--
-- State and errors. An object is a record, a method a function from a state to a state. A failed
-- `assert`, an exception of the container and an access outside a block end a call with a fault.
-- `size_t` arithmetic wraps at 2 ^ 64 where the code could reach that. A pointer into a buffer is
-- an index. System calls are arguments: the bytes that `readv` returned, the count that `write`
-- took, or an error number. Of code that differs by platform the Linux branches are modelled; the
-- poller of Windows is modelled beside that of Linux. A callback of a connection is whether it was
-- set; what the connection calls outwards is a list of notices, newest first. A callback of the
-- loop is a number, and a script says which operations of the loop it performs.
--
-- Bounds and fuel. The storage of a buffer is at most `std::vector<char>::max_size()`, 2 ^ 63 - 1
-- bytes, and theorems about growth assume room below it. The loop of `OnMessage` runs on fuel: one
-- turn for each readable byte and one more, which is enough since each turn that goes on takes four
-- bytes or more. The loop of FindCRLF runs on fuel likewise, one turn for each byte and one more. All
-- other loops recurse on a list.
--
-- Threads. A region under a mutex is one step, and so is the call of one appender of the log. `in_loop` says whether the caller is on the loop's
-- thread; a call from another thread queues a functor, and running the oldest one is a step of its
-- own. The order of the steps is arbitrary.
--
-- The server. Connections are the cells of a store, and the table names cells, since a connection
-- lives on in the functors that hold it. A loop has one poller and one queue. An iteration of the
-- table goes in the order of the model's list, where the source's order is that of a hash table.
-- The functor of a removal may run before the thread that queued it has gone on; that is part of
-- the step.
--
-- The program. What `main` hands to the server is composed as it is there: `HandleRead` calls the
-- message callback, which calls `OnMessage` on the input buffer, whose loop calls the codec's callback,
-- which sends on the connection. The functions `inet_pton` and `inet_ntop` are an interface with the
-- laws that their documentation gives.
--
-- Not modelled: callbacks of `main` that only log; the text of the statistics of TcpServer and
-- its export to a file; dates and times, which only format what the clock says; `Flush`; the socket pair
-- of Windows; error texts; configuration; getters and the context of a connection; callbacks of a user
-- that call a connection back while it handles an event, other than those of `main`. A loop's poller is
-- taken to hold one channel for each descriptor, by its descriptor.
pub mod Prelude
pub mod Buffer
pub mod Codec
pub mod Channel
pub mod Poller
pub mod TcpConnection
pub mod TcpClient
pub mod Socket
pub mod Acceptor
pub mod TcpServer
pub mod EventLoop
pub mod ThreadPool
pub mod Logger
pub mod SocketUtils
pub mod Address
pub mod Program
pub mod Examples
