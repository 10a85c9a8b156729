-- ===== src/Index.antt =====
-- The B+ tree index: MiniDB/src/index/BPlusTree.cpp with its header, and index_iterator.h.
pub mod Node
pub mod Tree
pub mod Iterator
pub mod Tests
