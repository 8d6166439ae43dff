-- ===== src/Lib.antt =====
-- Glacier, a small event-driven web server in C++ (glacier/), its logging library (glacier/base), and
-- two teaching servers in C beside it (csapp/tiny.c, echoserv).
--
-- How the program hangs together. A connection is an `HttpData` (glacier/httpdata.cc). When its
-- socket is readable, `handleRead` reads what there is (`readn` of glacier/utils.cc), parses the
-- request line and the headers, answers from a file, and writes (`writen`); `handleConn` then
-- registers the socket with the poller once more, under a timer (glacier/timer.cc) that closes
-- a connection left idle. Log lines are formatted in a `LogStream` (glacier/base/logstream.cc), with
-- the time of day from `TimeZone` and `Date` (glacier/base/timezone.cc, date.cc), and handed to
-- `AsyncLogging` (glacier/base/asynclogging.cc), whose thread writes them. `ThreadPool` is in
-- glacier/base/threadpool.h. `TcpServer` (glacier/tcpserver.cc) accepts connections and queues each to
-- an `EventLoop` (glacier/eventloop.cc), which waits in the poller, runs the handlers of the channels
-- and then what was queued. The thread of `AsyncLogging` writes to a `LogFile`
-- (glacier/base/logfile.cc), which goes on in a new file by size and by day. glacier/main.cc makes the
-- main loop and a server with four loops.
--
-- Which file models what.
-- Http: the types and fields of glacier/httpdata.h. Http/Uri is `parseURI`, Http/Headers is
--   `parseHeaders` with the body of its switch as `step_in`, Http/Response is `MimeType`,
--   `handleError` and `analysisRequest`, Http/Connection the handlers. A handler maps the connection
--   and a `World`, the socket and the calls made of the loop and the timer, to both afterwards. The
--   channel is its registered events; a weak pointer to a timer is the number of a timer.
-- Sockets: `readn` and both `writen` of glacier/utils.cc; Sockets/Open is the rest of that file.
-- System: the server as a whole. It holds the acceptor, the loops with their pollers, and the
--   connections; System/Deal, System/Registered, System/Serve and System/Whole follow a connection
--   from `accept` through the queue of its loop and its registration to its answers. System/Idle adds
--   the heap of timers of a loop and what it closes. System/Start is glacier/main.cc.
-- Reactor: glacier/eventloop.cc, its runs with the other threads a step relation; Reactor/Construct is
--   the constructor and the destructor, with the wakeup channel; Reactor/Thread puts a loop into the
--   thread of glacier/eventloop_thread.cc and adds the steps of its owner.
-- Server: glacier/tcpserver.cc.
-- Poller: glacier/channel.cc and epoll.cc; Poller/Registered is about a channel in both tables.
-- Loops: glacier/eventloop_threadpool.cc, and the latch of glacier/base/countdown.cc, the threads at
--   it a step relation in Loops/Latch.
-- Timers: glacier/timer.cc, the clock an argument. The manager numbers the timers that it makes, so
--   that a weak pointer to one can be modelled.
-- Logging: FixedBuffer, Convert and Stream are glacier/base/logstream.h and logstream.cc;
--   Logger is glacier/base/logging.h and logging.cc, with the time in Logger/Clock, a whole
--   statement in Logger/Statement, and in Logger/Output where the lines go: what `g_output` and
--   `g_flush` do is a `Sink`, and Output/Sinks has the standard output and, as
--   tests/asynclogging_test.cc sets it, `AsyncLogging`. Async is glacier/base/asynclogging.cc, its
--   runs a step relation; LogFile is glacier/base/logfile.cc.
-- Timestamp: glacier/base/timestamp.cc and current_thread.cc.
-- Threads: glacier/base/threadpool.h, its runs a step relation; Threads/Futures is about what its
--   futures hold.
-- Calendar: Date is glacier/base/date.cc, Date/Days its two conversions as an equivalence of types,
--   and Date/Ints where they stay within an `int`;
--   TimeZone and TimeZone/File are glacier/base/timezone.cc.
-- Tiny: csapp/tiny.c; Tiny/Adder is csapp/cgi-bin/adder.c. Echo: echoserv/helper.c and echoserv.c;
--   Echo/Client is echoserv/echoclient.c.
-- Common: what these share. Each Tests holds runs of the code and instances of the theorems.
--
-- Conventions. Bytes, characters and sizes are numbers. A call of `read` or `write` takes the next
-- event of a script; `none` as a result means that the script ends while the code still loops, so
-- nothing is said of it. An interrupted call is an event of its own, so the loops are structural
-- recursion over the script. `handle_read` has fuel for its calls of itself, and more than the number
-- of events left is enough; its result tells a return from a script that ends and from fuel that is
-- spent. The `while` of `read_requesthdrs` counts its tests; the conversions of Logging/Convert have more fuel than the number has
-- digits. Integers are not bounded where the source's stay far inside their type: the lengths of
-- buffers and the sums of the read and write loops. The calendar computes with integers without a bound
-- but for the casts of `toUtcTime`; Date/Ints tells up to which day that is what the code does. Where
-- csapp/cgi-bin/adder.c leaves the range of `int` there is no result.
--
-- What is an argument: `stat`, `open` and `mmap` (`FileSystem` of Http, `Machine` of Tiny, which is
-- also the CGI program), the functions of the C library that break a time into its fields, the text
-- that `snprintf` makes of a double, how much of its buffer the standard output writes at once, and
-- the lines that csapp.c, a copy of a textbook's library, reads. So are what the buffer of
-- `read_requesthdrs` holds before its first read, and what a `sprintf` of a text into itself leaves. An
-- `fopen`, and an `mmap` of a file that was opened, are taken to succeed: the source tests neither.
--
-- What is not modelled: the log line that glacier/main.cc begins with, the seconds in floating point of
-- glacier/base/timestamp.h, which are an argument, and the test drivers. csapp/csapp.c is a copy of
-- a textbook's library.
pub mod Calendar
pub mod Common
pub mod Echo
pub mod Http
pub mod Logging
pub mod Loops
pub mod Poller
pub mod Reactor
pub mod Server
pub mod Sockets
pub mod System
pub mod Threads
pub mod Timers
pub mod Timestamp
pub mod Tiny
