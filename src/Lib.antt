-- ===== src/Lib.antt =====
-- A verification library for MiniDB, the storage engine of this repository (MiniDB/). It models the
-- parts that keep state between calls and the parser, translated from the C++ sources, and states
-- what they do.
--
-- Parts, files and sources (paths from the repository's root):
--   Prelude and its children: shared lists, integers (`int`), sets, maps and the ways in which a call
--     can end (`Run`: it returns, it waits for ever on its own mutex, it goes out of bounds, or fuel is
--     used up).
--   Deadlock: MiniDB/src/concurrency/DeadLockDector.cpp. `add_edge`, `remove_edge`, `remove_txn` are
--     AddEdge, RemoveEdge, RemoveTxn; `dfs_cycle` is DFSCycle, with its loop in `each_edge`; `each_root`
--     is the loop of HasDeadlock and DetectCycle. Walks has paths in the graph, Ghost the finished
--     nodes of a search, Search the recursion, Correct the answers, Victim and Updates the rest.
--   Rid: MiniDB/include/common/rid.h. Transactions: MiniDB/src/concurrency/Transaction.cpp and
--     TransactionManager.cpp.
--   Locks: MiniDB/src/concurrency/LockManager.cpp, whose calls also write `locks_held_` of the
--     transactions. `step` and `run` are single calls and histories of them. Cases has the ways in
--     which a lock call ends; Invariant, Grants and Exclusion are about tables, answers and modes.
--   Replacer: MiniDB/src/buffer/Clock.cpp, ClockPro.cpp and LayeredClock.cpp. Ring has the loop round
--     the frames that the three share.
--   Page: MiniDB/src/buffer/Page.cpp. BufferPool: MiniDB/src/buffer/BufferPoolManager.cpp, over the
--     Layered replacer and a disk manager that is a parameter (`Disk`). Frames has the search for a null
--     entry, Invariant the agreement of frames, page table and replacer, Taking the frame for a new
--     page, Calls FetchPage and NewPage, Releasing UnpinPage and DeletePage, Flushing FlushPage, Cleaning
--     FlushAllPages with Entries for the page table; Access and Resident are what the callers do with a page.
--   Sql: MiniDB/src/parser/SQLParser.cpp. Lexer is Tokenize, Statements the five statements, Query
--     ParseQuery. A text is the list of its bytes.
--   Layers: MiniDB/src/storage/LayerManager.cpp with MiniDB/src/log/WALManager.cpp.
--   Catalog: MiniDB/src/storage/CatalogManager.cpp.
--   Bytes: `memcpy` and `reinterpret_cast` as the storage classes use them, with an `int` as four bytes,
--     the least significant one first.
--   Index: MiniDB/src/index/BPlusTree.cpp with MiniDB/include/index/index_iterator.h. Node is what the
--     methods do to the bytes of one page (Slots reads and writes, Finding and Collecting the search,
--     Inserting, Copying and Splitting the changes), Tree the methods over the pool, Iterator the iterator.
--   Tuple: MiniDB/include/common/types.h. Heap: MiniDB/src/storage/table_heap.cpp and its header; Slots
--     and Layout are about one page, Roundtrip about the calls over the pool, Iterator is the iterator.
--   DiskFile: MiniDB/src/storage/DiskManager.cpp over `std::fstream`; Closed is about the open stream.
--     `disk_manager` is its form for the pool. Log: MiniDB/src/log/LogBuffer.cpp; Order has its lines.
--   Executors: MiniDB/src/executor, over the interface `Executor`. Rows is what an operator gives, one
--     call after the other; Merge, Join, Sort, Aggregation, Scan and Insert are the classes, Bounds the
--     totals of an aggregation, Pairs the rows of a join, Sorted the order of a sort.
--
-- How they interact: the pool calls the replacer and the disk manager and owns the pages; the lock
-- manager writes the transactions' locks; the layer manager writes lines to the log. The deadlock
-- detector keeps its own graph, which no other part fills. The index and the table call the pool,
-- whose pages they read and write as bytes; the operators call the table, the index and each other.
-- The calls run under their object's mutex, so a history of calls is a list; the table, the operators
-- and the log buffer have no mutex and are modelled in one thread.
--
-- Fuel: the search for a cycle has one more than the number of keys of the graph, since each call on
-- the recursion stack but the innermost one is at another key. The loops round the frames have as
-- much fuel as there are frames, since the hand is back at its start after that many steps. The
-- binary search has the number of keys, FindLeafPage three levels, since nothing gives the tree a
-- third one, and the loops of the operators that read a child have a parameter, which the theorems
-- ask to be more than the number of its rows. The theorems give the result and never assume it.
--
-- Mutexes: `Victim` of each replacer locks its mutex and calls `Size`, which locks it again. The
-- parameter `reentrant` says whether a mutex may be locked again by its holder; `std::mutex` may not,
-- and with `false` such a call is `blocked`. The calls of the pool are stated for both; what `Victim`
-- chooses is stated of its loops (`rounds`, `turn`), which follow that call.
--
-- Bounds: a copy beyond the 2048 bytes of a record and a key beyond a page are `undefined`; the
-- theorems ask for the sizes that exclude them, or say which calls are. Other writes beyond a page, which
-- a tree whose `leaf_max_size` does not fit on a page would make, are dropped; the theorems on nodes
-- are about nodes that fit.
--
-- Integers: ids are `int`s without arithmetic that could leave their range, but for counters that
-- grow by one at each call. Frame numbers and sizes are natural numbers below 2 ^ 31.
--
-- Not modelled: the checkpoints, the optimizer, the server's sockets and threads, the metrics; the
-- access statistics of a page, which read a clock; destructors.
pub mod Prelude
pub mod Rid
pub mod Transactions
pub mod Locks
pub mod Deadlock
pub mod Replacer
pub mod Sql
pub mod Page
pub mod BufferPool
pub mod Bytes
pub mod Index
pub mod Tuple
pub mod Heap
pub mod Executors
pub mod Log
pub mod DiskFile
pub mod Catalog
pub mod Layers
