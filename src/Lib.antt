-- ===== src/Lib.antt =====
-- The RTK microkernel (kernel/, lib/, usr/): tasks, scheduling and message passing on one processor,
-- and the servers that user tasks talk to. A model of its C code, with the theorems about it.
--
-- How the parts meet. Every list of the kernel is an intrusive queue of lib/queue.c, so Queue models
-- a memory of nodes and headers, and its theorems say that each operation is the operation of lists
-- of addresses that its name promises. Kernel is the state machine on top of it: a system call is a
-- function from a kernel to its result and the next kernel, composed as in the source.
-- The servers are the loops of user tasks, one round as one function from a request to replies.
--
-- Which file models which part. State is passed explicitly, records stand for structs, and the
-- result `none` of an Option is undefined behaviour of the C program (a null pointer read, an index
-- outside an array), unless a comment says otherwise.
--  * Common: Boolean tests, lists and integers over the native numbers.
--  * Queue: lib/queue.c and lib/queue.h (EnqueueQueue, DequeueQueue, RemoveQueueNode). Queue.Segment
--    and Queue.Store relate the memory to lists, Queue.Laws is what clients use.
--  * Bytes: memcpy and memmove of lib/string.c, and 32-bit stores.
--  * Strings: the other functions of lib/string.c, and atoi of lib/stdlib.c.
--  * Random: lib/random.c.
--  * Kernel.State: the static data of kernel/task.c and kernel/communication.c, and the addresses of
--    nodes and headers: descriptor i is node i + 1, its `siblings` node 1025 + i, its message node
--    2049 + i; header s * 5 + p is scheduler.states[s].priorities[p], 35 is available_descriptors,
--    36 + i the children of i, 1060 + i the message queue of i.
--  * Kernel.Tasks: kernel/task_queue.c and the queries and changes of state and priority of
--    kernel/task.c. Kernel.Tasks.Placement is the invariant that the theorems keep: a descriptor in a
--    queue is in the queue of its own state and priority, or free; the running task is in none.
--  * Kernel.Lifecycle: InitTasks, CreateTask, ExitTask, ScheduleAndActivate, SaveTaskState.
--  * Kernel.Launch: RtkLaunch of kernel/rtk.c, up to its loop.
--  * Kernel.Stats: TasksStatsHandler and TaskStatsHandler.
--  * Kernel.Runs: the calls, interrupts and turns of the scheduler as steps of one relation.
--  * Kernel.Events: AwaitEventHandler, UnblockTaskWaitingOnEvent, HandleIrq, DestroyHandler. The tree of
--    a task's children, which DestroyHandler walks through their queues, is Kernel.Events.Family.
--  * Kernel.Communication: InitCommunication, SendProxy, ReceiveProxy, CompleteReceive, ReplyProxy.
--  * Names: lib/hashtable.c, lib/hash.c, the loop of usr/nameserver.c; in Names.Clients, RegisterAs and
--    WhoIs up to and from their Send.
--  * Clock: lib/sortedlist.c, the loop of usr/clockserver.c. Semaphore: SemInit and the loop of
--    usr/semaphore.c. Serial: lib/cyclicbuffer.c, and in Serial.Server the loop of usr/serialserver.c.
--    What each of these servers is to its clients is written down apart from the code: Clock.Service,
--    Semaphore.Service, Serial.Line.
--  * Commands: one round of usr/echoserver.c, usr/whoisserver.c and usr/randserver.c.
--  * Shell: Repl and Handle of usr/shell.c; a key is one step, output is listed.
--  * Rps: RpsGetResult and the loop of usr/rps.c.
--
-- Bounds and fuel. Descriptors are max_tasks = 1024, as in the source. The walks over a queue in
-- UnblockTaskWaitingOnEvent and TasksStatsHandler have fuel max_tasks + 1: a queue holds each descriptor
-- at most once.
-- DestroyHandler has fuel 2 * max_tasks + 2: each task below the destroyed one costs a call and a
-- round of its parent's loop. Loops over strings take their fuel as an argument. Words are 32 bits:
-- unsigned arithmetic wraps where it is written so; int arithmetic on tids and counters is on
-- integers, as its overflow is undefined; the clock's times and the sums of atoi are checked, and an int
-- that overflows there is no result.
--
-- Not modelled: arch/arm (assembly and device registers; timer tests and registers read are arguments,
-- device writes are listed as effects), lib/print.c (vendored), output for debugging, main.c,
-- usr/init.c, usr/top.c, the start of usr/shell.c, the example tasks, and the other client wrappers, which
-- only send a request.
pub mod Common
pub mod Queue
pub mod Bytes
pub mod Kernel
pub mod Names
pub mod Clock
pub mod Semaphore
pub mod Serial
pub mod Rps
pub mod Random
pub mod Strings
pub mod Commands
pub mod Shell
