-- ===== src/Lib.antt =====
-- ECE344 operating systems: the labs' programs, and what holds of them.
--
-- The repository holds four programs: a library of user-level threads with preemption
-- (threads/thread.c on threads/interrupt.c), a web server that serves requests with a pool of
-- worker threads and a cache (webserver/), a runner of shell pipelines (pipe/pipe.c), and exercises
-- (warmup/).
--
-- Base: the names that all share, C strings, texts with their decimal numbers, and signed integers
-- over the native numbers.
--
-- Threads (threads/thread.c, threads/thread.h).
--   Queue: the queues as nodes on a heap with head and tail (`enqueue`, `dequeue_element`,
--     `dequeue_element_from_head`, `wait_queue_destroy`), a step at a time. A walk runs on fuel; the
--     number of nodes and one more is enough, and running out is an answer of its own.
--   Fifo: the same operations on the list of the queued Tids; Queue/Refine relates the two, and all
--     that follows uses the lists.
--   State: the global variables, the thread control blocks, the allocated queues, locks, condition
--     variables and stacks by address, and the ways in which a call ends.
--   Yield (`thread_yield`, `thread_id`, `thread_stub`), Create (`thread_init`, `thread_create`),
--     Sleep (`thread_sleep`, `thread_wakeup`), Wait (`thread_wait`), Exit (`thread_exit`,
--     `thread_kill`, `thread_awaken`), Lock, Cv: one definition for each function, which maps a
--     state to an outcome. `setcontext` ends a call in `switched`; the thread that it jumps to goes
--     on by `resume`, and a call that was waiting for `thread_sleep` has left a frame.
--   Interrupt (threads/interrupt.c): the mask, and the handler that yields.
--   Machine: what a frame does when its call returns, and one name for every call.
--   Runs: the steps of the system, a call, among them those that make and destroy queues, locks and
--     condition variables, a return, a jump, an end or a preemption of the thread that runs its own
--     code, in any order, and what is reached by them.
--   Invariant: which thread stands in which queue, and what each slot owns; its children show what
--     each function does to a state of the invariant.
-- Each loop over the slots runs 1024 times, as THREAD_MAX_THREADS says. Addresses come from a
-- counter for queues and locks, and from an argument for stacks: what `malloc` returned, 0 on
-- failure. `malloc` of a queue, a node or a lock is taken to succeed, as the source asserts or
-- relies on. A preemption comes between two calls, never inside one. The source has interrupts on
-- inside `thread_sleep` and `thread_exit` once they have set them back and before they yield, inside
-- `thread_wait` before its sleep, and inside `cv_wait` between its release, its sleep and its
-- `lock_acquire`; preemptions there are not modelled. A failed `malloc` in `thread_create` is in the
-- model, and left out of the runs.
--
-- Server (webserver/server_thread.c).
--   Ring: the buffer between the accepting thread and the workers, with `server_init`,
--     `server_request`, `do_server_thread` and `server_exit`; a step is what a thread does between
--     two waits, and the steps come in any order.
--   Cache: `hash_function` on a signed int that wraps at 32 bits, `cache_lookup` and `cache_insert`
--     on chains; a pointer that nobody has set is a value of its own.
--   Lru: the doubly linked list on a heap, one definition for each of its functions; its walks run
--     on fuel, for which the number of entries and one more is enough.
--   Service: `do_server_request`, from the bytes of a connection to those of its response, with the
--     disk, the memory that `malloc` gives and the changes that other threads make to the cache
--     between its two locked sections as parameters.
--
-- Http (webserver/).
--   Rio (webserver/common.c): the robust I/O, `rio_read`, `rio_write`, `rio_readb`,
--     `rio_readlineb`, over the answers that `read` and `write` give, in pieces of any size, with
--     EINTR and errors among them. Behind the answers the file ends.
--   Request (webserver/request.c): one definition for each function; a request carries what has been
--     written to its connection. `request_read_headers` runs on fuel, for which the number of lines
--     and one more is enough where it returns at all.
--   Client (webserver/client.c): `client_send` and `client_print`; the loops run on fuel, for which
--     the number of lines of the header and of bytes of the body, and two more, is enough.
--   Fileset (webserver/fileset.c, webserver/client.c): the files that `main` makes, their index, and
--     `init_fileset`, which reads it; a round of fuel for each file and one more is enough.
--   Result: undefined behaviour, an exit of the process and a loop that has used its fuel are
--     results of their own.
-- Sizes of files are below 2 ^ 31; an overflow of the total in webserver/fileset.c is a fault.
-- Writes to a connection are taken to go through, but for Rio.
-- Sockets, the pools of threads around the requests, argument parsing and the random numbers, which
-- are inputs, are not modelled.
--
-- Pipe (pipe/pipe.c): `recur_pipe_call`, with the commands' exit codes as a parameter.
--
-- Warmup/Wc (warmup/wc.c): `wc_init` and `wc_output` with their hash table; the hash wraps at 64
-- bits, and as the size of the table is an int, the arrays have less than 2 ^ 30 bytes. Warmup/Fact
-- (warmup/fact.c): `recursive` and `main`, with the overflow of an int.
-- Warmup/Cpr (warmup/cpr.c): `file_copy_routine`, `dir_recursive` and `main`; the source is a tree
-- of what `readdir`, `stat`, `opendir` and `read` answer, the destination a tree of named nodes, so
-- that the recursion needs no fuel; a file whose `read` fails from some call on makes the loop run
-- for ever, which is a result of the model. Child Image is what a copy should be, child Copies shows
-- that it is that. The other exercises are output and arithmetic on doubles, and are not modelled.
--
-- Each part has a module Tests with the claims at concrete inputs.
pub mod Base
pub mod Threads
pub mod Server
pub mod Warmup
pub mod Pipe
pub mod Http
