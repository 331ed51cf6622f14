-- ===== src/Lib.antt =====
-- c-liber, a C library for Linux: data structures, a byte ring, descriptor streams, a thread pool and
-- an event loop. The development follows the sources under src/; every file names the source that
-- it models.
--
--   * RingBuffer: src/system/nx/io/ring_buffer.c. `ring_buffer_*` are functions of the record
--     RingBuffer; RingBuffer/Create is the creation with its error paths.
--   * Io: src/system/nx/io/io.c. Io/Dump is `fd_dump`, the loop that copies one descriptor to another
--     through a ring buffer; the kernel's answers are a list of rounds, so no fuel is needed. That it
--     restores the flags of the descriptors in the end is left out.
--   * Tst: src/common/ds/tsearch_tree.c, the ternary search tree. `Node` is the tree, `Tree` the
--     handle of the callers.
--   * DList: the calls of src/common/ds/dlist.h, a copy of the Linux kernel's list, as a parameter.
--   * ThreadPool: src/system/nx/thread_pool. The pool's functions are functions of the record Pool;
--     ThreadPool/World puts them together to a step relation with one step for each critical section
--     under the pool's mutex, in any order. `tp_job_queue_destroy` runs on as much fuel as the queue has
--     entries, and each round takes one.
--   * EvLoop: src/fevent_loop. EvLoop/EventSet is the conversion of event sets of
--     _ev_monitor_core/_epoll.c, EvLoop/Callbacks `ev_assign_cb` and `ev_ready_item_dispatch`,
--     EvLoop/ReadyQueue the queues of _ev_ready_queue.c, whose dispatch loop runs on one more round of
--     fuel than the list has items, EvLoop/WatchTree the search, addition and deletion of watched items
--     of _ev_watch_item.c over the red-black tree, EvLoop/WatchPool the addition and deletion of
--     _ev_watch_pool.c on it, which free the items, EvLoop/Create the creations that clean up after an error, and
--     EvLoop/Run `ev_loop_run` of event_loop.c on a list of rounds.
--   * Emitter: src/common/ev_emitter.c, callbacks by the name of an event in a ternary search tree.
--   * RbTree: src/common/ds/rbtree.c and rbtree.h, the red-black tree. The memory is a function from
--     addresses to nodes, 0 is NULL, and each pair of mirrored functions is one that takes the side.
--     RbTree/Insert, RbTree/Erase and RbTree/Walk are its operations, whose loops run on fuel;
--     RbTree/Shape says which tree the memory represents, as a place with the path above it, RbTree/Turn
--     what a rotation does to it, RbTree/Cases the cases of the fixup, and RbTree/Refine follows
--     `rb_insert` on it, and RbTree/Remove `rb_erase`.
--   * SafeStr: src/common/safestr.c, the copies of strings into buffers of a given size, on a memory of
--     bytes.
--
-- Numbers are natural numbers; `unsigned long` offsets wrap at 2 ^ 64, written out. Pointers to
-- callbacks, arguments and values are numbers. `malloc` and the system calls are given by their
-- outcomes. Arguments are not NULL, where a function checks for it.
--
-- Not modelled: the changes of watched items, the notification pipe and the sources of the event
-- loop, the overflow of the `int` that counts the keys of a search tree, the tokens of the bounded
-- strings, and what only calls the system: signals, sockets, the daemon, the console and the printing.

pub mod Prelude
pub mod RingBuffer
pub mod Io
pub mod Tst
pub mod DList
pub mod ThreadPool
pub mod EvLoop
pub mod Emitter
pub mod RbTree
pub mod SafeStr
