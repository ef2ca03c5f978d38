-- ===== src/Lib.antt =====
-- Fat-BTree keeps a B+ tree in the memory of backend servers and caches its upper levels in a
-- programmable switch. A client's request reaches a backend with the address of the node at which
-- the switch left the descent (the bias), and the backend goes on from there.
--
-- What is modelled is the path of a request, first through the Ethernet variant: the client
-- (Ethernet/CPU/YCSB-BPlusTree-Frontend/db/b_plus_tree_db.cc) builds a key and a message, the
-- backend (Ethernet/CPU/YCSB-BPlusTree-Backend/backend-1/backend.cc) takes the message apart, runs
-- the tree (lib/b_plus_tree.h beside it) and replies, and the client takes the reply apart.
--
-- Client has the requests of Read, Insert and Update and the loops that wait for replies;
-- Client.Requests has the bytes of the requests. KeyIndex has the number in a key, with both
-- versions of remove_key_index_prefix (lib/fbt_utils.h of the two ends) and get_part_id. Codec has
-- inject_* and extract_* of driver/driver.cc, where a buffer has 1472 bytes and a byte past its end
-- is a fault; Codec.RoundTrip and Codec.Header say what they write and that it is read back.
-- Backend has the handlers and the loop of main; Backend.Serve says what the handlers reply and do
-- to the tree, and Backend.Dispatch what the loop does with a series of requests. Session puts a
-- client and a backend together, the requests going through the body of the loop of main, with a
-- transport that delivers each message once.
--
-- Run has the runs of stateful code: a run ends with a result, a fault (undefined behaviour of the
-- C++: an index out of range, a null pointer, a pool or a buffer that is used up, a failed
-- assertion) or without fuel. BPlusTree.Store has class Node and the fields of class BPlusTree.
-- Nodes live in an array, `pool`, of which the source takes nodes one after the other; a Node * is
-- an index there. BPlusTree.Overflow has overflow, split into the copy of a root or loaded node,
-- the split of a leaf or an inner node, and the climb to the parent. BPlusTree.Access has insert,
-- update (update_record, since update is the write to the pool) and lookup. BPlusTree.Load has
-- load2switch_greedy and print_info, with the priority queue and std::sort as the record Library;
-- what is printed is a list of records; Load.Published and Load.Layers are about the marks on
-- printed nodes. FieldTable has update_field_table. FixedArray has the container of the RDMA
-- variant, RDMA/CPU/lib/fixed_size_container.h: an array of cells and a size, where a write past
-- the last cell gives none. Order has operator< of the keys, which the trees are generic in; the
-- keys of the Ethernet variant are strings, ordered by str_order; those of the RDMA variant are
-- arrays of char, which is signed on the machines the program runs on, and signed_order is their
-- instance.
--
-- RdmaCodec has the messages of the RDMA variant, RDMA/CPU/driver/driver.cc: the client uses
-- strings, the backend the fixed-size containers. RdmaClient has the requests of
-- RDMA/CPU/db/b_plus_tree_db.cc and RDMARead, which follows the nodes of a backend from the client.
-- RdmaDriver has read_remote_node and process_work_completion_events
-- (RDMA/CPU/driver/rdma_driver.cc and rdma_common.cc), with what the verbs library answers to a
-- READ as a parameter. RdmaTree has insert, lookup and overflow of RDMA/CPU/lib/b_plus_tree.h,
-- whose nodes hold fixed-size arrays; RdmaTree.Sim says when its pool stands for a pool of
-- BPlusTree, whose theorems then serve for both: RdmaTree.Lookup and RdmaTree.Insert draw on them,
-- and RdmaTree.Full is about a split below a node without room. RdmaBackend has the handlers of
-- RDMA/CPU/backend/backend.cc for inserts, updates and queries and the body of the loop of main,
-- RdmaBackend.Long is about a request with a key that is too long, and RdmaBackend.Query puts a
-- client and a backend together. The keys of the tree are lists of the elements of a KEY_TYPE,
-- compared as FixedArray.Less says. MatchTable has RDMA/P4/FBT_RDMA/control_plane/config_table.cpp,
-- which turns the sorted keys of a fat node into four match tables of 16 bits each; the loop over
-- the digits, of which the source has four copies, is one definition with the prefix and the shift
-- as arguments. MatchTable.Scan follows that loop with the invariant that each digit so far has its
-- line or lies in the open run, and MatchTable.Effect with the invariant that the numbers of the
-- prefixes stay different and tables without a number stay empty. MatchTable.Stage goes over the
-- prefixes of a level, and MatchTable.Route follows a key through the four tables.
--
-- The proofs see the pool as a tree (BPlusTree.Tree), from any of its nodes (Tree.Zipper: a trail
-- from the root and the tree at its end), and the tree as a walk of records and separators.
-- BPlusTree.Stands is the invariant: the pool holds the trail and the tree, no address is used
-- twice, nodes that have not been taken are as constructed, the walk is sorted, and each node but
-- the one at hand has fewer than m keys. The parent pointers of value nodes do not count: a split
-- leaves them stale, and nothing reads them. BPlusTree.Records has the abstract view, a sorted
-- association list, on which put and get say what insert and lookup do. BPlusTree.Copy,
-- BPlusTree.Split and Overflow.Climb carry the invariant through overflow, Access.Leaf and
-- Access.Choice through a descent, Access.Seen through the access counts, Access.Revalue through a
-- change of fields; Access.Bias has the addresses in requests; Access.Hang and Access.Joined have
-- the parts of insert, Access.InLeaf and Access.Descent those of the walks to a value node;
-- Access.Insert, Access.Update, Access.Lookup and Access.Fill put them together.
--
-- `m` is the template argument M, any number from 2. The fuel of a descent or a climb is counted in
-- nodes, so that the height of the tree and one or two more are enough; an insertion makes the tree
-- at most one level higher. The pool has 100000000 nodes as in the source, and the theorems ask for
-- room for the nodes that an operation can take. The theorems on insert and lookup are about keys
-- that are absent and present respectively: the source compares no key when it has come to a value
-- node.
--
-- Not modelled: load2switch and the print_info without a mask, which nothing calls; the set-up of
-- DPDK ports, threads and flow rules; the comparisons with a ground truth under CORRECTNESS; the
-- switch loading of the RDMA tree, so that a request for it has no run; the set-up of RDMA
-- connections; the YCSB workload and its other stores; the copies of hiredis; the switch programs,
-- which are P4 and Python.
pub mod Backend
pub mod BPlusTree
pub mod Client
pub mod Codec
pub mod FieldTable
pub mod FixedArray
pub mod KeyIndex
pub mod MatchTable
pub mod Order
pub mod Prelude
pub mod RdmaBackend
pub mod RdmaClient
pub mod RdmaCodec
pub mod RdmaDriver
pub mod RdmaTree
pub mod Run
pub mod Session
