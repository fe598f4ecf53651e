-- ===== src/Lib.antt =====
-- A model of the SPDY session layer of mod_spdy, and what can be proved of it.
--
-- The program. mod_spdy lets the Apache server speak SPDY. One connection thread runs a SpdySession:
-- its main loop reads input, which the framer of Chromium's net library turns into callbacks, and
-- writes the frames of the output queue. Each stream that the client opens, or that the server
-- pushes, is a SpdyStream with a task on another thread; it takes frames from its input queue and
-- puts frames in the session's output queue, within the windows of SPDY's flow control. A stream's task
-- runs a request in Apache, on a worker of the ThreadPool. SpdyToHttpConverter turns the frames of the
-- request into calls of a visitor, the HttpStringBuilder, which writes the text; Apache reads
-- it through the SpdyToHttpFilter;
-- HttpResponseParser and HttpToSpdyConverter turn the response into frames.
-- Files named below without a path are in src/mod_spdy/common of the repository.
--
-- The parts, and the modules that model them.
--   Frame            the net::Spdy...IR frames and status codes that the code builds and reads
--   Protocol         protocol_util.cc: versions, header names, header tables; the two window sizes
--                    and the conversion of an uint32 to an int32
--   FrameQueue       spdy_frame_queue.cc: a stream's input queue. Fifo: an abstract queue
--   PriorityQueue    spdy_frame_priority_queue.cc: the session's output queue. Order: its order;
--                    Waiting: BlockingPop
--   SharedWindow     shared_flow_control_window.cc. Input and Output: its two halves over any calls
--   Stream           spdy_stream.cc, method by method. Sender: SendOutputDataFrame, as the steps of
--                    a thread; Delivery, Credit, Race: what it sends and takes. Input, Window,
--                    Abort: the other methods
--   Session          spdy_session.cc. StreamMap: SpdyStreamMap. State: the fields and the methods
--                    that send and stop. Handlers: the callbacks On.... Push: StartServerPush.
--                    Work: the steps of stream threads and of the executor. Run: the main loop.
--                    Draining, Backoff, Ending: how it goes on and ends.
--                    Valid, Reach: the invariant and the sessions that can come about. Opening,
--                    Settings: single callbacks
--   ResponseParser   http_response_parser.cc. Lines: searches in byte strings. Progress, Body, Split: its
--                    loop, bodies of known length, line breaks between inputs
--   HttpToSpdy       http_to_spdy_converter.cc. Delivery, Closed, Names: bodies, what follows
--                    FLAG_FIN, header names
--   SpdyToHttp       spdy_to_http_converter.cc. Values: InsertHeader. Request: the frames of a stream.
--                    RoundTrip, Errors, Body, Delivery: joined values, refused frames, bodies
--   StringBuilder    http_string_builder.cc. Grammar, Stages, Ends, Fits, Checks: its states as the
--                    visitor of the converter
--   RequestFilter    src/mod_spdy/apache/filters/spdy_to_http_filter.cc. Reading: the text it returns
--   PushFilter       src/mod_spdy/apache/filters/server_push_filter.cc. Loop: header after header. Legal,
--                    Entries, Accepted, Pushes: what it asks for, and the session's answer
--   ThreadPool       thread_pool.cc. Main: the threads and the steps of all. Counts, Steps, Valid: the
--                    pool's invariant. Stopping, Once, Served: its executors and tasks
--   PushDiscovery    server_push_discovery_session.cc. Expiry, Sessions: its table. Learner:
--                    server_push_discovery_learner.cc; Pushes: what it proposes
--   ServerConfig     spdy_server_config.cc. Merging: chains of configurations
--   IdPool           src/mod_spdy/apache/id_pool.cc. Distinct: the IDs in use
--   Common           numbers, lists, integers and Boolean tests that the others share
--   Tests            the theorems at concrete inputs, and runs of the code
-- A function has the name of the method in snake case, and a record has the fields of the class.
--
-- Threads. A method that runs under one lock is one step. SendOutputDataFrame gives its lock up where it
-- waits and, over SPDY/3.1, in RequestOutputQuota:
-- it is a machine whose states are the places where the stream thread stands, and between two steps
-- the stream and the window may become anything. What waits on a condition variable is a result of
-- its own (`waits`, `sleeps`), after which the call is made anew. base::Lock is not recursive; the one place
-- where a thread takes a lock that it holds is `send_goaway_locked`. SetInitialWindowSize writes the size
-- for new streams before it takes its lock: `on_setting` is the run without others in between, and the
-- step `resizes` of Session.Reach lets them in. In the inner loop over the output other threads take
-- the steps of `turns`.
--
-- What is outside. The framer's serialization and the SpdySessionIO are the parameter `Wire`, which
-- decides from the frames written so far what becomes of the next; what happens in one turn of the
-- main loop is the record `Round`. The two constants of net/spdy that the code names (the initial and
-- the largest size of a window) are the parameter `WindowSizes`, of which `IsSane` says that both are
-- positive, in order. The executor is the list of the tasks it was given and whether it was
-- stopped; a task's end is a step of `Work`. A CHECK that fails, and a thread that waits for a lock it
-- holds, are `none`. DCHECKs and logging are left out, but for those of the string builder and that of
-- SendOutputFrame in SendOutputDataFrame: it is noted whether they held, and the code goes on.
--
-- Numbers. Stream IDs, lengths and the input counters are numbers, output windows and priorities
-- are integers, and none of them wraps, with three exceptions: the delta of a WINDOW_UPDATE goes on
-- as an int32, the sum that gives unused quota back to a stream's window is an int32, and the counter of
-- the ID pool is an uint16.
--
-- Fuel. `drain_rest`, the inner loop over the output queue once other threads are quiet, has as much fuel
-- as the queue has frames, since each turn takes one; the loops of ProcessInput and SendDataIfNecessary
-- have as much as there are bytes, since each turn leaves fewer, and so has that of InsertHeader.
-- BlockingPop takes the list of its wakes, and the main loop the list of its rounds.
--
-- The number conversions of Chromium's base, which the parser calls, are the parameter `Numbers`; the
-- `hex` of the string builder stands for its %lX. The learner's `Library` has the average that the
-- source computes in doubles, EndsWith and std::sort, of which a theorem supposes that it gives back
-- the elements of its list. Whether a thread can be created comes with each step of the thread pool.
-- The input filter's stream is the list of what its GetInputFrame returns. The push filter's `Library` is
-- the number conversion, apr_uri_parse and the lookup in APR's tables; what StartServerPush returns is any
-- function of the calls made so far. Each entry of its header takes a quote, so the loop's fuel is its length.
--
-- Not modelled: of the thread pool, the marks by which a WorkerThread's DCHECKs know whether it has been
-- started and joined; that the push filter takes its header out of the response; the logging of
-- statuses; and the rest of the glue to Apache under src/mod_spdy/apache, which is calls of other
-- programs.
pub mod Common
pub mod Frame
pub mod FrameQueue
pub mod Session
pub mod SharedWindow
pub mod Stream
mod Tests
pub mod PriorityQueue
pub mod Protocol
pub mod HttpToSpdy
pub mod IdPool
pub mod ResponseParser
pub mod SpdyToHttp
pub mod PushFilter
pub mod RequestFilter
pub mod PushDiscovery
pub mod ServerConfig
pub mod ThreadPool
pub mod StringBuilder
