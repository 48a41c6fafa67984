-- ===== src/Lib.antt =====
-- stp: cooperative coroutines in lightweight processes, for C++.
--
-- A process owns coroutines, which wait for a message, a timeout or a descriptor. Other processes,
-- the timer and the poller push messages into its mailbox; a push that finds the process parked
-- hands it to the scheduler, whose workers resume it. The files and what they model:
--
-- - Message: `struct Message`, `sessionForResponse` and `typeOfMessage` of src/process.cpp.
-- - Mailbox: `class Mailbox` there. Mailbox.System is the writers (`Process::push_message`), the
--   reader and the scheduler as a step relation; a step is a section under the lock or one access
--   to the atomic flag.
-- - Coroutine: `class Result` and the state of `class Coroutine` there; Coroutine.Life is this class, with
--   the function of a coroutine as a tree of its calls of `yield`.
-- - Process: the queues of `class Process` there, `resume` and `exit`. The code that a coroutine
--   runs between two switches is a parameter. `exit` runs on fuel, since the coroutines may go on
--   for ever; two more than the coroutines that wait are enough when they do not.
-- - Process.Run is `run`, `dispatch` and the switch of `resume`, on fuel too, since coroutines may
--   wake each other for ever; Process.Serve is the handlers, a round of `serve` and the
--   environment, Process.Serve.Replies the answer of a handler, Process.Serve.Handlers the templates of
--   src/process.hpp;
--   Process.Abort is the destructor. Process.Places
--   counts the places where a coroutine waits, Process.Conserve and Process.Run.Turn follow them
--   through a turn, Process.Caught is a coroutine that catches the exception that it is told of.
-- - Mutex: `class coroutine::Mutex` of src/process.cpp. Mutex.System is its coroutines as a step
--   relation.
-- - Scheduler: `class Scheduler` of src/process.cpp. Scheduler.Order is its workers and the callers of
--   `resume` as a step relation. Scheduler.Stop is `stop` with src/os.cpp, src/exit.cpp and
--   src/main.cpp, and the workers until they end.
-- - Registry: `reg`, `unreg`, `find`, `ref`, `unref` and `retire` of src/process.cpp, and the calls
--   that send a message, create a process and run it. Registry.System is all who hold references to
--   processes as a step relation, Registry.Owners and Registry.Safety its invariant.
--   Registry.Requests is `request`, `yield` and `Process::response`, from the coroutine that asks to its
--   waking.
-- - Context: the cache of stacks of src/context.cpp, `mstack` and `munstack`. Context.Objects is its
--   class Context with `create` and `destroy`.
-- - Fd: Fd.Epoll is the table of filters of src/fd_epoll.cpp, `wait` and what the poller reads;
--   Fd.Epoll.Flat is the map that the table stands for, Fd.Epoll.Segments the threads that race for a
--   segment of it, Fd.Epoll.Waits `wait` and the poller as a step relation over the interface EpollSet.
--   Fd.Kqueue is `wait` and the poller of src/fd_kqueue.cpp.
-- - Events: src/event.cpp.
-- - Timer: the timer wheel of src/time.cpp: `_queue`, `_tick`, `_update` and `_timeout`. Timer.Service is the
--   clock and the messages of its process, Timer.Service.Bag what it promises, Timer.Service.Thread the
--   thread of the clock with it. Timer.Nodes is the linked lists in memory with the free list of nodes,
--   and Timer.Nodes.Wheel the whole timer on them; its walks run on fuel, more than the lists are long.
-- - Io: `read_full`, `read` and `write` of src/io.cpp over the outcomes of the calls of wild::io.
-- - Tcp: `_trim` and `_parse` of src/tcp.cpp. Tcp.Sockets and Tcp.Sockets.Connect are `listen`, `connect`
--   and `accept`, with the calls of the operating system as the interface of Tcp.Os; the loop of
--   `accept` runs on fuel, one more than the calls in which nobody has connected.
-- - Wild: the contracts of wild::AppendList, wild::IdAllocator and wild::FreeList, which are not part
--   of the repository.
-- - Pool: the free lists of messages of src/process.cpp and of contexts of src/context.cpp; Pool.Threads
--   is their threads as a step relation.
-- - Session: `class Session` of src/process.hpp; Session.Owners is variables that are created, moved
--   and destroyed.
-- - Dict: the maps, as lists of pairs without duplicate keys.
-- - Prelude and Bits: lists, tests and bitwise operations that the parts share.
--
-- Numbers are naturals, with the remainder written out where the source's type wraps around.
-- Not modelled: the switch of stacks, which is that of ucontext; the start
-- of threads and modules, which wild::module and std::thread do; the texts of errors and what is printed;
-- examples/echo, which only uses the library.
pub mod Bits
pub mod Context
pub mod Coroutine
pub mod Dict
pub mod Events
pub mod Fd
pub mod Io
pub mod Mailbox
pub mod Message
pub mod Mutex
pub mod Pool
pub mod Prelude
pub mod Process
pub mod Registry
pub mod Scheduler
pub mod Session
pub mod Tcp
pub mod Timer
pub mod Wild
