-- ===== src/Lib.antt =====
-- NginZ is a server of several processes. A master forks five workers; the processes form a star and
-- send one another messages over socket pairs. Each process runs fibers in turn: one of them polls
-- the descriptors and calls what is registered for them, another makes the calls that were put off.
-- The master keeps a key-value table for all, and hands connections to the workers in turn.
--
-- The files, and the code that each is about:
--
--   Prelude        shared names, Boolean tests, lists and arrays
--   Xtring         the texts of aroop, a parameter with laws, and one instance
--   Fiber          base/src/fiber.c: register_fiber, unregister_fiber, fiber_module_step
--   LazyCall       base/src/lazy_call.c: lazy_call, lazy_cleanup and the step
--   EventLoop      base/src/event_loop_poll.c: the table of descriptors and the step over poll
--   Protostack     net/src/protostack.c: the protocols by port
--   Fork           base/src/parallel/fork.c: fork_processors
--   Pipeline       base/src/parallel/pipeline.c: the nodes, pp_send, the hooks after a fork
--   LoadBalancer   apps/load_balancer/src/load_balancer_subsystem.c
--   Scanner        base/src/scanner.c: scanner_next_token, scanner_trim
--   BinaryCoder    base/src/binary_coder_extended.c: messages of tagged fields
--   AsyncDb        base/src/parallel/async_request.c, db/src/async_db.c, db/src/async_db_master.c
--   Chat           apps/chat/src/broadcast.c, and parts of chat_factory.c, quit.c and user.c beside it
--   Plugin         base/src/plugin.c: the plugins of a name, and their calls
--   ChatNames      apps/chat/src/user.c, apps/chat/src/room.c: the requests for names and counts
--   StreamIo       net/src/streamio.c: streams in chains
--   Partitioned    base/src/event_loop_partitioned_openmp_poll.c: the event loop over eight tables
--   Quitall        base/src/shake/quitall.c: the commands that end all processes
--   Http           apps/http/src/http_parser.c, and parts of http_factory.c and http_accept.c beside it
--   Session        apps/chat/src/chat_accept.c, chat_zombie.c and chat_factory.c: one connection
--   Welcome        apps/chat/src/welcome.c: the dialogue of a log-in
--   Join           apps/chat/src/join.c and hiddenjoin.c: joining a room, of this process or another
--   RoomMaster     apps/chat/src/room_master.c: which process has which room, and the list of rooms
--   Handover       net/src/raw_pipeline.c, and the accepting side of chat_accept.c and http_accept.c
--   TcpListener    net/src/tcp_listener.c: the listening sockets of the master
--   Bubbles        base/src/parallel/pipeline.c: the message that calls a plug-in in another process
--
-- The static variables of a C file are a record, and each function of the file is a function on it.
-- Code that may stop the process, by an assertion or an access outside of an array, gives an Option:
-- `none` is the stop. A `Bool` result is `true` for 0 and `false` for -1. Function pointers and
-- objects are named by numbers; what a callback does is a parameter of the code that calls it. A C
-- `int` that may be negative is its 32-bit pattern.
--
-- Loops over an array recurse on the number of cells that are left. The dispatch of the event loop
-- has as many rounds as the table has cells, since its index grows in each round and the table is
-- never longer; the sweep of the compaction has as many rounds as entries, since its index grows and
-- stays below the end. A call along a chain of streams has fuel, and more than the length of the chain
-- is enough. For the endless loop of the fibers the fuel is the number of rounds made.
--
-- The processes are modelled one at a time, and a message by its sender and its receiver: the master
-- takes requests one after the other. Where both sides are followed, the pipe between them is that of
-- an interface to the kernel: Bubbles has what a process sends to another until the plug-in there is
-- called, Handover has an accepted socket until the handler of its protocol in the worker is called,
-- which for the chat is in Session and for the web server in Http. AsyncDb works on the fields of a
-- message, where BinaryCoder lays them out as bytes; AsyncDb/Wire relates the two. Chat takes the
-- writing to a stream and the count in the database as parameters; StreamIo and ChatNames are about
-- those. A text of the chat is a constructor with the names that are put into it.
--
-- Not modelled: aroop (texts, hash tables, object pools), sockets, poll and fork, which are
-- parameters; the console (base/src/shake.c), the web chat, the tunnel of the web server, private
-- messages and the commands of the chat that only print, the older binary coder
-- (base/src/binary_coder.c), which the build leaves out, the calls that plug the modules in at the
-- start, and the test programs.
pub mod Prelude
pub mod Xtring
pub mod Fiber
pub mod LazyCall
pub mod EventLoop
pub mod Protostack
pub mod Fork
pub mod Pipeline
pub mod LoadBalancer
pub mod Scanner
pub mod BinaryCoder
pub mod AsyncDb
pub mod Bubbles
pub mod Chat
pub mod ChatNames
pub mod Handover
pub mod Http
pub mod Join
pub mod Partitioned
pub mod Plugin
pub mod Quitall
pub mod RoomMaster
pub mod Session
pub mod StreamIo
pub mod TcpListener
pub mod Welcome
