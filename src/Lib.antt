-- ===== src/Lib.antt =====
-- A verification library for uThreads, a runtime of user-level threads in C++.
--
-- The program. A Cluster groups kThreads, which are kernel threads; a kThread runs one uThread at a
-- time and has a run queue of others. A uThread gives up its kThread by yield, migrate, suspend or
-- terminate; the scheduler chooses the next one and `postSwitchFunc` deals with the one that was left.
-- The synchronisation objects suspend uThreads in blocking queues and resume them; the I/O handler
-- suspends them in the slots of a descriptor until the poller notifies it. All queues are intrusive:
-- their links lie in the elements.
--
-- Which file models what.
--   Base: shared names, Boolean tests, lists, machine words.
--   Intrusive, Intrusive/Queue, Intrusive/Stack: IntrusiveQueue and IntrusiveStack of
--     src/generic/IntrusiveContainers.h over a memory of links. A queue is its head and tail, and
--     `IsQueue` and `IsStack` say which list the links stand for. Operations: `push`, `pop`,
--     `pop_many` for `pop(size_t&)`, `transfer_from`, `remove_all`, `transfer_all_from`.
--     Intrusive/Ring is IntrusiveList of the same file, a ring through the address of its anchor;
--     Intrusive/Ring/Many has its operations on many elements.
--   Mpsc: BlockingMPSCQueue of the same file. `exchange` and `link` are the two halves of `insert`,
--     `pop_at` is a single atomic step of `pop()` at each place of it; Mpsc/Run has all interleavings.
--   Sync: Mutex of src/runtime/BlockingSync.h, with the blocking queue of src/runtime/BlockingSync.cpp;
--     Sync/OwnerLock, Sync/ConditionVariable and Sync/Semaphore: the classes of these names.
--   KernelSemaphore: src/generic/Semaphore.h.
--   Scheduler02: src/runtime/schedulers/Scheduler_02.h: `schedule`, the semaphores, and both switches;
--     Scheduler02/Bulk has its bulk push.
--   Scheduler01: src/runtime/schedulers/Scheduler_01.h. A queue is a list there. `pop_many` and
--     `pop_many_wake` are `__popMany` up to a wait and after one; `popped` and `leave` cut
--     `blockingSwitch` in the same way. Scheduler01/Run has all histories of calls, with what each
--     kThread moved and ran; Scheduler01/Spin is `__spinLock`, Scheduler01/Bulk the bulk pushes.
--     Scheduler01/Places forgets the order of the uThreads, by a quotient of Base/Unordered.
--   Scheduler03: src/runtime/schedulers/Scheduler_03.h; Scheduler03/Bulk has its bulk push.
--   Scheduler04: src/runtime/schedulers/Scheduler_04.h, over a memory of nodes; `blocking_switch`,
--     `blocking_switch_pop` and `blocking_switch_end` are the parts of `blockingSwitch`.
--   RunQueue: the interface of a run queue, which Scheduler03/Fifo and Scheduler04/Order fill, and what
--     follows from it for sequences of calls.
--   UThread, Runtime: src/runtime/uThread.h, src/runtime/uThread.cpp and src/runtime/kThread.cpp. The
--     functions keep their names (`destroy` is `destory`); `post_leave` is the switch statement of
--     `postSwitchFunc`, `post_arrive` what is behind it, and `choose` the scheduler's choice.
--     Runtime/Steps has all sequences of steps of any number of kThreads, Runtime/Places the
--     invariant. `stray` tells whether there are calls of `resume` that its guard lets through on a
--     uThread that is neither parked nor started by them; the theorems are about programs without
--     them, but for those on `yield` with nobody else to run.
--   KThreads: the constructors, `run` and the destructor of src/runtime/kThread.cpp, with the counters;
--     `initialize_main_ut` and `initialize_default_ut` are the branches of `initializeMainUT`.
--   Cache: src/runtime/uThreadCache.h.
--   Cluster: src/runtime/Cluster.h and src/runtime/Cluster.cpp.
--   Io: src/io/IOHandler.h, src/io/IOHandler.cpp and the flags of src/io/EpollIOHandler.cpp. Io/Run has
--     the interleavings of a reader, a writer and notifications of one descriptor, without a close and
--     without a `block` before the other uThread's `postSwitchFunc` has ended; Io/Closing has those.
--     Io/Poller has the loop of the poller, Io/Cache the cache of poll data.
--   Network: src/io/Network.h and src/io/Network.cpp; `io_call` is the loop that the operations share.
--     Network/Setup has the constructors and the calls that pass on a result.
--   CWrapper: the functions of src/cwrapper.cpp that read from and write to a connection.
--   Join: `waitOrSignal` of src/runtime/uThread.h with `join`, `terminate` and `detach` of
--     src/runtime/uThread.cpp.
--   Pool: src/runtime/uThreadPool.h and src/runtime/uThreadPool.cpp.
--
-- Choices. An address is a native number and `nullptr` is 0; a read or a write through `nullptr` is
-- `none`. `size_t` and the counter of OwnerLock wrap around at 2^64 where the code can reach the
-- bound, and are numbers elsewhere. Assertions compile to nothing under NDEBUG, so that they are
-- Boolean tests beside the operations. What runs under a `std::mutex` is one step, and atomic
-- operations are sequentially consistent. The results of system calls, of `malloc` and of `try_lock`
-- are arguments of the steps. In Runtime the run queue of a kThread is a list, read from its front;
-- what Scheduler02 adds to that, the atomic steps and the semaphores, is proved there.
-- In Scheduler01 `Run late` tells whether kThreads wake up spuriously when their `cv_flag` is set already,
-- and fewer than 2^32 uThreads are in the run queue; a share of no kThread is the fault of a division by 0; the spin of `__spinLock` takes 11 rounds of fuel.
-- `Mpsc.pop` takes fuel: six steps are enough when no producer is in the middle of an insert.
--
-- Not modelled: the context switch in assembly, the functions of the C wrapper that forward one
-- call, the system calls on epoll and the test programs.
pub mod Base
pub mod Intrusive
pub mod Mpsc
pub mod Sync
pub mod KernelSemaphore
pub mod RunQueue
pub mod Scheduler02
pub mod UThread
pub mod Cache
pub mod Cluster
pub mod Runtime
pub mod KThreads
pub mod Io
pub mod Network
pub mod Join
pub mod Pool
pub mod Scheduler03
pub mod Scheduler01
pub mod Scheduler04
pub mod CWrapper
