-- ===== src/Lib.antt =====
-- conex: a network library of reactors, TCP connections, an HTTP server and an asynchronous log.
--
-- The parts and how they meet. A connection (TcpConnection.h, TcpConnection.cc) reads the bytes of
-- its socket into one Buffer (Buffer.h, Buffer.cc) and drains another, when the events of its Channel
-- (Channel.h, Channel.cc) say so; the poller (EPoller.h, EPoller.cc) keeps the kernel's list of events
-- in step with the channels; the loop (EventLoop.h, EventLoop.cc) waits in the poller, calls the
-- handlers and then the tasks that threads have queued, and its timers (Timer.h, TimerQueue.h,
-- TimerQueue.cc) run callbacks when they expire. The HTTP server (HttpServer.h, HttpServer.cc) feeds
-- the input buffer to a parser (HttpContext.h, HttpContext.cc) that fills a request (HttpRequest.h,
-- HttpRequest.cc), and writes a response (HttpResponse.h, HttpResponse.cc) to the connection. A server
-- (TcpServerSingle.h, TcpServerSingle.cc) keeps the connections that its Acceptor (Acceptor.h,
-- Acceptor.cc) gets; TcpServer (TcpServer.h, TcpServer.cc) runs one in the loop of each of its threads.
-- A client (TcpClient.h, TcpClient.cc) has a Connector (Connector.h, Connector.cc) connect and a timer
-- for another try, and then one connection. EventLoopThread (EventLoopThread.h, EventLoopThread.cc)
-- runs a loop in a thread and waits for it at a CountDownLatch (CountDownLatch.h, CountDownLatch.cc);
-- a ThreadPool (ThreadPool.h, ThreadPool.cc) runs tasks apart from the loops. A statement of the log
-- makes a Logger (Logger.h, Logger.cc), which puts its line together in a LogStream over a FixedBuffer
-- (LogStream.h, LogStream.cc); lines pass through the buffers of AsyncLogging (AsyncLogging.h,
-- AsyncLogging.cc) to a LogFile (LogFile.h, LogFile.cc). Addresses are InetAddress (InetAddress.h,
-- InetAddress.cc), values of any type are `any` (any.h), and Mime.h finds the type of a file's content.
--
-- Which module models which file. A module has the class's name; its state is a record with the
-- members that matter and each method a function in the source's words (`retrieveAllAsString` is
-- `retrieve_all_as_string`). The modules below it have the proofs, and Tests applies them to concrete
-- states.
--   Prelude: names, Boolean tests, lists, byte strings and signed integers; Option is the monad of
--     faults, for failed asserts and for what is undefined in C++.
--   Memory: a `std::vector<char>` as a list of bytes, copies and `size_t` arithmetic.
--   StdMap: `std::map<std::string, std::string>` as an association list in order of the keys.
--   Decimal: what `snprintf` writes for `%d` and `%zd`.
--   Buffer, HttpRequest, HttpContext, HttpResponse, HttpServer, Channel, EPoller, TcpConnection,
--     EventLoop, TimerQueue, FixedBuffer, LogStream, Logger, LogFile, AsyncLogging, ThreadPool,
--     CountDownLatch, EventLoopThread, Connector, TcpClient, Acceptor, TcpServerSingle, TcpServer,
--     InetAddress, Any: the classes of these names.
--   Mime: the functions of Mime.h.
--   HttpServer/Session: the server's handler on the buffers and the socket of a connection;
--     HttpServer/Setup: the object over TcpServer.
--   EventLoop/Timers: the functions of the loop that pass on to its timers and its poller.
--   TcpConnection/Watched: a connection whose changes of events reach the poller.
--   TcpClient: the client with its Connector, its connection, the loop's timers and the kernel.
--
-- What is an argument. The answers of `readv`, `write`, `fopen`, `fwrite_unlocked`, `connect`,
-- `getsockopt` and `accept4`, the time and the text of `ctime`, the text that `snprintf` prints for a floating point
-- number, the contents of files and the working directory (Mime), the types that `any` can hold, the
-- user's callbacks and the thread that calls. `epoll_ctl` is a record of parameters with its documented
-- behaviour as hypotheses, and the table in EPoller/Table shows that they can hold; `inet_pton` and
-- `inet_ntop` are another, with an example in InetAddress/Tests. Calls into other parts (queued tasks,
-- callbacks, changes of events) come out as lists of effects in the order of the calls.
--
-- Threads. EventLoop, EventLoopThread, CountDownLatch, TcpServer, AsyncLogging and ThreadPool are states
-- with one function per piece of code between two points where threads can take turns; a sequence of
-- these in any order is an interleaving. In the destructors of EventLoopThread and TcpServer the test of
-- a pointer to a loop and the call of `quit` through it are one step.
--
-- Bounds and fuel. `size_t` is a number modulo 2^64 and a vector holds at most 2^63 - 1 bytes; an `int`
-- that a size is cast to wraps at 2^32. The loop of `parseRequest` runs on fuel, and one round for each
-- line and one more are enough where it ends; the loop of `convert` runs on one more than the magnitude
-- of its number, which is always enough. Other loops are recursion on a list.
--
-- What is not modelled. Threads, locks and condition variables as such, sockets being opened, set up and
-- closed, the writing of the library's own messages and the default callbacks that print, Timestamp.h,
-- Callbacks.h and noncopyable.h, which have types and calls of the system only. LogFile's
-- `rollFile` has no body. The addresses of a connection and its user's context are not
-- part of its state. The casts of references in any.h, which do not compile once they are used, are
-- left out. An address that `delete` has given back is not given out again.
pub mod Prelude
pub mod Mime
pub mod Memory
pub mod Buffer
pub mod StdMap
pub mod Decimal
pub mod FixedBuffer
pub mod LogStream
pub mod LogFile
pub mod AsyncLogging
pub mod Logger
pub mod HttpRequest
pub mod HttpContext
pub mod HttpResponse
pub mod HttpServer
pub mod Channel
pub mod EPoller
pub mod Any
pub mod TcpConnection
pub mod EventLoop
pub mod TimerQueue
pub mod EventLoopThread
pub mod ThreadPool
pub mod CountDownLatch
pub mod InetAddress
pub mod Connector
pub mod TcpClient
pub mod Acceptor
pub mod TcpServerSingle
pub mod TcpServer
