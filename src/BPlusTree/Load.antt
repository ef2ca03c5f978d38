-- ===== src/BPlusTree/Load.antt =====
-- load2switch_greedy and print_info of Ethernet/CPU/YCSB-BPlusTree-Backend/lib/b_plus_tree.h, which
-- choose the nodes that the switch caches and print them, and Node::depth. What is printed is a list of
-- records; `size` is sizeof(Node), and a node is printed as its distance from the root in bytes. The
-- report on standard output is left out.
pub mod Layers
pub mod Marked
pub mod Published
mod Runs
use fat_btree.Run.{Run, Cmd, ok, fault, out_of_fuel, and_then, ◌>>=◌, ◌>>◌, pure, need}
use fat_btree.Prelude.{
  ℕ, zero, suc, ◌+◌, ◌-◌, ◌*◌, ◌/◌, ◌%◌, ◌^◌, Bool, true, false, ◌&&◌, Option, none, some, List, [],
  ◌∷◌, ◌++◌, map, ltb, leb, ◌==◌, if◌then◌else◌, length, get_elem?, take, Str,
}
use Prim.Native.Nat.{bit_or}
use fat_btree.KeyIndex.{remove_key_index_prefix}
use fat_btree.BPlusTree.Store.{Node, BPlusTree, root, update, load}

abbrev pub Pool : Type 0
Pool = ℕ → Node Str

-- What the source calls of the C++ library: the priority queue's top and the others, in two parts, of a
-- queue that is not empty, where the first argument stands for the history of the queue; std::sort by
-- access_count, the largest first; std::sort of pairs.
pub record Library : Type 0 where
  pub pop : ℕ → (ℕ → ℕ) → ℕ → List ℕ → (List ℕ × ℕ) × List ℕ
  pub sort_access : (ℕ → ℕ) → List ℕ → List ℕ
  pub sort_pairs : List (Str × ℕ) → List (Str × ℕ)

-- A node in a file: its number among the files, and the rest as printed.
pub record Printed : Type 0 where
  pub file : ℕ
  pub node : ℕ
  pub virtual_depth : ℕ
  pub keys : List (ℕ × ℕ)
  pub child : List ℕ

-- isLoaded2Switch = true
unfoldable pub mark : List ℕ → Pool → Pool
unfolding update
mark [] pool = pool
mark (c ∷ cs) pool = mark cs (update pool c (record (pool c) { is_loaded = true }))

-- <key_hi,key_lo> of each key
abbrev pub with_words : Option ℕ → Option (List (ℕ × ℕ)) → Option (List (ℕ × ℕ))
with_words none rest = none
with_words (some fbt_key) none = none
with_words (some fbt_key) (some ws) = some ((fbt_key / 2 ^ 32 % 2 ^ 32, fbt_key % 2 ^ 32) ∷ ws)

unfoldable pub key_words : List Str → Option (List (ℕ × ℕ))
unfolding remove_key_index_prefix
key_words [] = some []
key_words (k ∷ ks) = with_words (remove_key_index_prefix k) (key_words ks)

-- print_info with a mask
unfoldable pub print_info : ℕ → ℕ → ℕ → ℕ → ℕ → List Str → List ℕ → Cmd (BPlusTree Str) Printed
unfolding mark key_words
print_info size mask file cur virtual_depth keys childs s =
    let s' : BPlusTree Str = record s { pool = mark (cur ∷ childs) s.pool } in
    and_then (need (key_words keys) s') λ ws. ok (record {
      file = file;
      node = if cur == root then 0 else bit_or mask (cur * size);
      virtual_depth = virtual_depth;
      keys = ws;
      child = map (λ c. bit_or mask (c * size)) childs;
    })

-- Node::depth, from the parent on
unfoldable pub node_depth : ℕ → Option ℕ → Cmd (BPlusTree Str) ℕ
node_depth fuel none s = ok 0 s
node_depth zero (some p) s = out_of_fuel
node_depth (suc fuel) (some p) s =
    and_then (node_depth fuel (s.pool p).parent s) λ ret. ok (ret + 1)

-- node_map: the nodes with their keys
abbrev pub NodeMap : Type 0
NodeMap = List (ℕ × Str)

-- node_map[a] = k
unfoldable pub assign : ℕ → Str → NodeMap → NodeMap
assign a k [] = (a, k) ∷ []
assign a k ((b, l) ∷ m) = let rest = assign a k m in if a == b then (b, k) ∷ m else (b, l) ∷ rest

unfoldable pub erase : ℕ → NodeMap → NodeMap
erase a [] = []
erase a ((b, l) ∷ m) = let rest = erase a m in if a == b then m else (b, l) ∷ rest

-- node_map[a]
unfoldable pub key_of : ℕ → NodeMap → Str
key_of a [] = []
key_of a ((b, l) ∷ m) = let rest = key_of a m in if a == b then l else rest

-- !ch->isLeaf && ch->depth() < compress_depth
abbrev pub goes_on : ℕ → ℕ → ℕ → Cmd (BPlusTree Str) Bool
goes_on fuel compress_depth c s =
    if (s.pool c).is_leaf
    then ok false s
    else and_then (node_depth fuel (s.pool c).parent s) λ d. ok (ltb d compress_depth)

-- The loop over the children of `tmp`, from the child `i` on.
unfoldable pub expand :
    ℕ → ℕ → ℕ → ℕ → List ℕ → NodeMap → List ℕ → Cmd (BPlusTree Str) (NodeMap × List ℕ)
unfolding assign key_of node_depth
expand fuel compress_depth tmp i [] m q s = ok (m, q) s
expand fuel compress_depth tmp i (c ∷ cs) m q s =
    and_then (need (if i == 0 then some (key_of tmp m) else get_elem? (s.pool tmp).key (i - 1)) s)
      λ k s1. and_then (goes_on fuel compress_depth c s1) λ deeper.
        expand fuel compress_depth tmp (i + 1) cs (assign c k m)
          (if deeper then q ++ (c ∷ []) else q)

-- The loop over the priority queue.
unfoldable pub greedy : Library → ℕ → ℕ → ℕ → ℕ → NodeMap → List ℕ → Cmd (BPlusTree Str) NodeMap
unfolding expand erase
greedy lib m root_load_num compress_depth zero node_map q s = out_of_fuel
greedy lib m root_load_num compress_depth (suc fuel) node_map [] s = ok node_map s
greedy lib m root_load_num compress_depth (suc fuel) node_map (x ∷ xs) s =
    if leb (length node_map + m) root_load_num
    then (let p = lib.pop fuel (λ a. (s.pool a).access_count) x xs in
        let tmp = p.0.1 in
        and_then (expand fuel compress_depth tmp 0 (s.pool tmp).child node_map (p.0.0 ++ p.1) s)
          λ mq. greedy lib m root_load_num compress_depth fuel (erase tmp mq.0) mq.1)
    else ok node_map s

-- if (v.size() > max_load_num) v.resize(max_load_num)
abbrev pub limited : ℕ → List ℕ → List ℕ
limited max_load_num v = if ltb max_load_num (length v) then take max_load_num v else v

-- The children of a layer.
abbrev pub children : Pool → List ℕ → List ℕ
children pool [] = []
children pool (p ∷ ps) = (pool p).child ++ children pool ps

-- cached_nodes[i], ... after cached_nodes[i - 1]; `limit` is cached_nodes.size().
unfoldable pub layers : Library → ℕ → ℕ → ℕ → ℕ → List ℕ → Cmd (BPlusTree Str) (List (List ℕ))
layers lib max_load_num limit zero i before s = ok [] s
layers lib max_load_num limit (suc n) i before s =
    if ltb i limit
    then (let nodes =
          limited max_load_num
            (lib.sort_access (λ a. (s.pool a).access_count) (children s.pool before)) in
        and_then (layers lib max_load_num limit n (i + 1) nodes s) λ rest. ok (nodes ∷ rest))
    else fault

-- The loop over the nodes of a layer.
unfoldable pub print_layer : ℕ → ℕ → ℕ → ℕ → List ℕ → Cmd (BPlusTree Str) (List Printed)
unfolding print_info
print_layer size mask file virtual_depth [] s = ok [] s
print_layer size mask file virtual_depth (n ∷ ns) s =
    and_then (print_info size mask file n virtual_depth (s.pool n).key (s.pool n).child s)
      λ x s'. and_then (print_layer size mask file virtual_depth ns s') λ xs. ok (x ∷ xs)

-- The file that is open at the layer which is `k` below the compressed ones.
abbrev pub file_at : ℕ → ℕ → ℕ → ℕ
file_at nb_files file k = if (k % 2) == 0 && ltb (k / 2 + 1) nb_files then k / 2 + 1 else file

-- The loop over the layers.
unfoldable pub print_layers : ℕ → ℕ → ℕ → ℕ → ℕ → List (List ℕ) → Cmd (BPlusTree Str) (List Printed)
unfolding print_layer
print_layers size mask nb_files file k [] s = ok [] s
print_layers size mask nb_files file k (ns ∷ layers) s =
    and_then (print_layer size mask (file_at nb_files file k) (k + 1) ns s) λ xs s'.
      and_then (print_layers size mask nb_files (file_at nb_files file k) (k + 1) layers s')
        λ ys. ok (xs ++ ys)

abbrev pub swapped : ℕ × Str → Str × ℕ
swapped pk = (pk.1, pk.0)

-- depth - 2 and the like on a uint32_t
abbrev pub sub32 : ℕ → ℕ → ℕ
sub32 a b = (a + 2 ^ 32 - b) % 2 ^ 32

-- The number of i from `low` to `high`.
abbrev pub span : ℕ → ℕ → ℕ
span low high = (high + 1) - low

unfoldable pub load2switch_greedy :
    Library → ℕ → ℕ → ℕ → ℕ → ℕ → ℕ → ℕ → ℕ → Cmd (BPlusTree Str) (List Printed)
unfolding greedy layers print_layers print_info
load2switch_greedy lib size m fuel nb_files root_load_num max_load_num compress_depth mask s =
    and_then (greedy lib m root_load_num compress_depth fuel ((root, []) ∷ []) (root ∷ []) s)
      λ node_map s1. elim (lib.sort_pairs (map swapped node_map)) [
        | [] ↦ fault
        | first ∷ others ↦
            let nodes = first.1 ∷ map (λ (p : Str × ℕ). p.1) others in
            let keys = map (λ (p : Str × ℕ). p.0) others in
            let high = sub32 s1.depth 2 in
            let limit =
              if ltb s1.depth (compress_depth + 1) then compress_depth + 1 else s1.depth in
            and_then (print_info size mask 0 root 0 keys nodes s1) λ x s2.
              let top_layer =
                limited max_load_num (lib.sort_access (λ a. (s2.pool a).access_count) nodes) in
              and_then
                (layers lib max_load_num limit (span (compress_depth + 1) high) (compress_depth + 1)
                  top_layer s2)
                λ below s3.
                  let printed = take (span compress_depth high) (top_layer ∷ below) in
                  and_then (print_layers size mask nb_files 0 0 printed s3) λ xs. ok (x ∷ xs)
      ]
