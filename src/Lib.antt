-- ===== src/Lib.antt =====
-- Models of the concurrent and networked programs of this repository, with what makes them correct.
--
-- ThreadPool, of day2/ex_ThreadPool: `thread_safe_queue` (a mutex, a condition variable and a
-- deque), `threadpool` with its workers, and `main`. Mutex holds the shared memory and the calls on
-- the mutex and the condition variable; Queue the steps of `is_empty`, `pop` and `push`, one for
-- each call of the thread library and one for each access that the mutex protects; System the
-- threads and the step relation, where any thread that can move may move, and one that waits at the
-- condition variable may wake up at any time. History records what was pushed and taken. The proofs
-- are Invariant (what every reachable state satisfies), Safety, Progress and Termination.
--
-- Btree, of day2/07a_rwlock_tree/pthread_rwlock.cpp: the class `btree`. Heap is the store that its
-- nodes lie on, where an access to a deleted node is a fault; Nodes the private members, which recur
-- on pointers; Object the public ones, each of which holds the read-write lock. Shape relates the
-- heap to a tree and Insert and Search follow the private members along it. The fuel bounds the
-- depth of the recursion: one more than the number of keys inserted is always enough.
--
-- ActiveObject, of day2/x_active_object: its own `thread_safe_queue`, with `try_pop`, and the owner
-- and the worker of an `ActiveObject`. A step goes from a lock of the mutex to its unlock, or to a wait at
-- the condition variable, from which the worker may wake up spuriously.
--
-- Logger has `Logger` and `LoggerAsync`, and compares them.
--
-- Launch has every `launch_thread` and `thread_routine` of the repository, of which there are four
-- kinds, by the objects on the heap.
--
-- Future, of day2/x_pthreads_future: `ptask` and `future`, and `main` with its two futures.
--
-- Pi, of day2/ex_pi: `darts` and the threads that share a generator, which is a parameter, as is the
-- test of a dart in floating-point numbers.
--
-- Tsq, of day1/ex_TSQ: the queue without a lock, its producer and its consumers. A consumer has fuel
-- for one round more than the numbers that are pushed.
--
-- Rwlock, of the examples in day2/07a_rwlock_tree/pthread_rwlock.cpp: Holders has
-- `main_example_01`, whose writer and readers
-- hold the lock, and Shared `main_example_02`, whose threads share one tree: a call of the tree
-- locks, works and unlocks in steps of its own. A thread takes its steps whenever it can. The proofs are
-- Locks (the calls of the lock), Invariant, Turns (who may move) and Readers. The fuel of a call of the tree is 21, one more than the keys that are inserted.
--
-- Counter, of day1/05_mutex/pthread_mutex_perf.cpp and day2/08_spin/pthread_spinlock.c: threads that
-- count up a counter under a lock, with the accesses to the counter as steps of their own; Mains has
-- both `main` functions.
--
-- Barrier, of day2/12_barrier/pthread_barrier.c: `main`, and in Threads the workers at the barrier.
--
-- ProdCons, of day1/08_prod_cons/main.cpp: the producer and the consumer of one queue, with the
-- mutex and the condition variable, which may wake a thread that was not signalled.
--
-- MutexTypes, of day1/06_mutex_type and day2/06_mutex_type: the thread that locks a mutex twice. The
-- thread library is a parameter whose laws are what it documents of the kinds of mutexes.
--
-- UnixStream, of day3/unix_stream_server/main.cpp: the server, whose endless loop is cut at a number
-- of clients, and the client.
--
-- Clone, of day2/00_clone-test/main.cpp: `main` and the child of `clone`, which share the table of
-- their descriptors.
--
-- Cancel, of day2/13_cancel/pthread_cancel.c, Signals, of day2/04a_signals/signals.cpp, and Tss, of
-- day2/14_tss/tss.cpp: the calls of `main` and of the threads. Mains gathers the `main` functions
-- whose substance is the order of their calls.
--
-- Sched, of day2/04_attribs/sched.cpp: the calls of `main` and of a thread, whose counting is cut at
-- a number of rounds.
--
-- Process has the programs whose substance is the order of their calls: a program is a tree of the
-- calls that it makes, and the system a function from all that happened before to an answer, or to
-- none, for a call that never returns. Plan compares a program with a list of calls, and
-- Protocol says which order its calls have to keep.
--
-- Accumulate, of day1/ex_accumulate/multithread_sum.cpp: `one_thread_sum` and `multithread_sum`,
-- whose four threads move in the order of a schedule, a round of one thread's loop at a time.
--
-- Histogram, of day1/ex_histogram/modify_image.cpp: `make_histogram`, and in Threads the blocks, the
-- threads and the merge of `main_threaded`. An index outside a vector or an image is a fault. Draw
-- has `draw_histogram` and both programs; the length of a bar, which is computed in floating-point
-- numbers, is a parameter.
--
-- Arguments, of day1/02_arguments_adv/arguments.c: `main`, which fills an array, and the threads,
-- each of which reads its entry.
--
-- InetSockets, of day3/16_sock_inet/inet_sockets.cpp: `sock_connect`, `sock_listen` and `sock_bind`.
-- The system calls are a parameter, the record Kernel, whose laws say what a call does to the
-- descriptors of the process and to the lists that `getaddrinfo` allocates. What a call answers is
-- open. Main has the client and the server of day3/16_sock_inet/main.cpp over them.
--
-- Socknet, of day3/socknet/net: `base_socket`, `tcp_socket` and `unix_socket`, with exceptions as
-- values. Kernel has the system calls of a stream as a parameter: a law bounds how often signals
-- interrupt a call, and the fuel of TEMP_FAILURE_RETRY is one more. `sendAll` has fuel for as many
-- rounds as bytes and one more, since each call of `send` that does not fail takes a byte. Unix has
-- the addresses and the destructor of local sockets; an exception that leaves a destructor ends the
-- program. Internet has `internet_socket`, Datagram `udp_socket` and `unix_datagram_socket`, each with
-- the system calls of its family as a further parameter. Programs has the servers and clients of
-- day3/socknet over streams, and UnixPrograms those over local datagrams; the endless loops are cut at
-- a number of clients or datagrams. Closing and Session follow one session of a server.
--
-- Prelude has the numbers, the lists and the families that these share: ℤ over the native ℕ in Int,
-- the lists in Lists, and families indexed by a number in Family.
--
-- Machine integers wrap where the code adds or multiplies them: `unsigned long` at 2 ^ 64 and
-- `u_int` at 2 ^ 32. The keys of the tree are only compared, so they are integers without a bound.
--
-- Not modelled: what the programs print, the clocks, and what a task does. day1/ex_histogram/appm.cpp
-- is a copy of another project's library. day3/15_abstract_unix_socket does not compile as it is.
-- day1/01_simple_thread and day1/03_exit start a thread that
-- prints, and day1/04_boost_thread_priority does not compile. The thread pool of day3/socknet/thread has
-- the text of that of day2/ex_ThreadPool, and day1/06_mutex_type that of day2/06_mutex_type.
pub mod Prelude
pub mod Process
pub mod Launch
pub mod Tsq
pub mod Future
pub mod Pi
pub mod Arguments
pub mod Sched
pub mod MutexTypes
pub mod UnixStream
pub mod ProdCons
pub mod Clone
pub mod Cancel
pub mod Signals
pub mod Tss
pub mod Mains
pub mod Barrier
pub mod Counter
pub mod Rwlock
pub mod ThreadPool
pub mod Btree
pub mod Accumulate
pub mod Histogram
pub mod InetSockets
pub mod ActiveObject
pub mod Socknet
