-- ===== src/Lib.antt =====
-- A model of the server framework: timers, fibers, the fiber scheduler, the I/O manager on epoll, the
-- file descriptors and hooked system calls on top of it, the log, and the settings.
--
-- The program's parts. A Scheduler (include/scheduler.h, src/scheduler.cc) owns a list of tasks, which
-- are fibers or functions, and threads that each run the loop Scheduler::run: take a task, switch to
-- its fiber (include/fiber.h, src/fiber.cc), and put the fiber on hold when it gives control back. An
-- IOManager (include/io_manager.h, src/io_manager.cc) is a Scheduler and a TimerManager
-- (include/timer.h, src/timer.cc): a thread with nothing to run executes IOManager::onIdle, which waits
-- in epoll_wait for descriptors and for the next timer, schedules the callbacks of the expired timers,
-- and schedules the fiber or function of every descriptor that became ready. The hooked system calls
-- (include/hook.h, src/hook.cc) turn blocking calls of a fiber into waits on the IOManager; they look
-- descriptors up in the FileDescriptorManager (include/fd_manager.h, src/fd_manager.cc). All of them
-- write to loggers (include/log.h, src/log.cc). Settings (include/config.h) are loaded from YAML and have
-- handlers that are called when they change; the loggers are made from one of them. Threads and scoped
-- locks (include/thread.h, src/thread.cc) and socket addresses (include/address.h, src/address.cc) stand
-- by themselves.
--
-- The files. Base and its children hold the shared types: natural numbers with Boolean tests, lists
-- with their length, lookup and update, and Outcome, the result of code that can stop at an `assert`
-- (assertion), by an exception (thrown) or by undefined behaviour (undefined).
-- - OrderedSet: std::set as a list in order, for any comparator; OrderedSet/Laws has its laws.
-- - Timer: class Timer and class TimerManager, one definition per method. Timer objects live in a
--   heap, since the comparator reads the fields of the objects in the set and the methods write them.
--   list_expired_callback is the method with nothing between its two locks, list_expired_locked its
--   part under the second lock. Timer/Invariant says when a queue is valid; Timer/History runs calls.
--   Timer/Table is the specification, a table of timers without order, and Timer/Refine relates the two.
-- - Fiber: class Fiber and the thread-local variables. A switch with swapcontext is a change of `cpu`.
--   Fiber/States runs sequences of calls; Fiber/Switches follows control through two switches.
-- - Scheduler: the task list and Scheduler::run, a round at a time (run_round). What a fiber's code
--   does between two switches is the argument `body`. Scheduler/Ending has the loop
--   and `stop`; Scheduler/Drain follows the loop until it ends, by way of Starts, FirstTask and
--   IdleEnds, and Scheduler/Stop is about `stop`; Scheduler/Leaks counts over many rounds.
--   Scheduler/Threads has several threads in `run`, as steps in any order; what the program schedules
--   meanwhile is a parameter.
-- - FdContext, IoManager: struct FDContext and the listeners of IOManager, its cancellations and
--   `tickle`. IoManager/Contexts says when a state is valid: a handler is set exactly while its event
--   is waited for, and the count of pending events is right.
-- - IdleLoop: IOManager::isStop and a round of IOManager::onIdle, with the events that epoll_wait
--   returned as an argument. IdleLoop/Round joins the timers and the listeners.
-- - LogFormatter, Logger, LoggerManager: the pattern of a log line, parsed into items and printed;
--   loggers and their appenders; and the manager that makes them from the settings. A string is the
--   list of its bytes.
-- - FdManager: FileDescriptor and FileDescriptorManagerImpl. FdManager/Sockets says that every socket
--   known to the manager is non-blocking in the kernel.
-- - Hook: fcntl's F_SETFL and F_GETFL, setsockopt's time-outs and ioctl. Hook/Wait: the timer and the
--   listener of a wait, and the call-back of the timer. Hook/Io: doIO, the loop around every hooked read
--   and write, which Hook/Calls lists; what runs while its fiber is swapped out is an argument.
--   Hook/Connect: connectWithTimeout, in two parts, before and after its wait. Hook/Sleep: sleep, usleep
--   and nanosleep, up to where the fiber waits. Hook/Open: socket, accept and close.
-- - Config: class ConfigVar with its change handlers, and the registry behind Config::Lookup.
--   Config/Loading: LoadFromYAML and TraversalNode.
-- - Thread: the scoped locks, as the calls that they make on their mutex, and class Thread.
--   Thread/Start: its constructor and the new thread, as steps of both in any order.
-- - Address: the order, the text and the ports of addresses, on the bytes of the sockaddr structures.
--
-- What belongs to the system is an argument: the clock, the addresses that `new` returns, whether
-- getcontext and swapcontext succeed, what epoll_ctl and writing to the pipe answer (Kernel), and the
-- events that epoll_wait reports, localtime_r with strftime, fstat and fcntl (Os, with what their
-- documentation promises in OsLaws), what the real calls return that doIO and connectWithTimeout make,
-- and how a setting of each type reads a text. A document of yaml-cpp is a tree of its nodes with
-- their texts; what its assignment of nodes does, which TraversalNode uses where a full name comes
-- twice, is an argument too. The hooks that wait are called on a thread of an IOManager. 64-bit numbers
-- wrap where the code adds or subtracts. Loops over lists are structural. LogFormatter::init has as many
-- rounds as the pattern has bytes, which the theorem on it shows to be enough; the loop of
-- Scheduler::run has two more than there are tasks, which is enough where every fiber runs to its end;
-- doIO and ioctl, which need not end, take the number of rounds as an argument.
--
-- Not modelled: the constructor and destructor of IOManager, which make and close epoll and the pipe,
-- make room for the first contexts, and start and stop the scheduler; the locks of the components, but
-- for the window between the two locks of listExpiredCallback and the parts of Scheduler::run that hold
-- none; what a new thread does to a Thread object whose constructor threw in sem_wait; what follows from
-- nodes that a document shares by anchors; names and log output of the components themselves; the
-- loading of the real functions by dlsym, the setting for connect's time-out, and the commands of fcntl
-- and getsockopt that only pass their arguments on; the conversions of containers of settings, which are
-- calls of yaml-cpp and boost; Unix addresses, which are only declared; and util.cc and exception.cc
-- with their headers, which print call stacks.
pub mod Base
pub mod OrderedSet
pub mod Address
pub mod Thread
pub mod Timer
pub mod Fiber
pub mod Scheduler
pub mod FdContext
pub mod IoManager
pub mod IdleLoop
pub mod LogFormatter
pub mod Logger
pub mod LoggerManager
pub mod FdManager
pub mod Hook
pub mod Config
