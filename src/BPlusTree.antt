-- ===== src/BPlusTree.antt =====
-- The B+ tree of a backend: Ethernet/CPU/YCSB-BPlusTree-Backend/lib/b_plus_tree.h.
pub mod Store
pub mod Load
pub mod Overflow
pub mod Records
pub mod Access
pub mod Copy
pub mod Split
pub mod Stands
pub mod Tree
mod Runs
