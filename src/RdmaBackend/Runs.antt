-- ===== src/RdmaBackend/Runs.antt =====
-- A query at a tree of one record.
use fat_btree.Prelude.{
  ℕ, zero, suc, ◌≤◌, ◌≡◌, refl, none, some, [], ◌∷◌, ◌++◌, arith, replicate, Str,
}
use fat_btree.Run.{Returns, fault}
use fat_btree.Order.{signed_order, signed_lt, signed}
use fat_btree.FixedArray.{elems}
use fat_btree.KeyIndex.Digits.{to_digits}
use fat_btree.KeyIndex.RoundTrip.{padded, remove_key_index_prefix-padded}
use fat_btree.BPlusTree.Records.{get}
use fat_btree.BPlusTree.Tree.{leaf}
use fat_btree.RdmaCodec.{FixedStr, FixedTable}
use fat_btree.RdmaCodec.Fixed.{fields}
use fat_btree.RdmaTree.Lookup.{Alike, Counted}
use fat_btree.RdmaTree.Sample.{one_entry, one_record, one_fixed, one-Stands, one-Alike}
use fat_btree.RdmaBackend.{node_of, serve}
use fat_btree.RdmaBackend.Long.{serve-long}
use fat_btree.RdmaClient.{insert_request}
use fat_btree.RdmaBackend.Query.{InCells, serve_read, rdma_serve_read_lem}

-- "usertableuser"
abbrev user : Str
user = b'u' ∷ b's' ∷ b'e' ∷ b'r' ∷ b't' ∷ b'a' ∷ b'b' ∷ b'l' ∷ b'e' ∷ b'u' ∷ b's' ∷ b'e' ∷ b'r' ∷ []

abbrev name : Str
name = user ++ padded 0 42

abbrev blank : FixedStr
blank = record { size = 0; val = λ _. 0 }

abbrev none_yet : FixedTable
none_yet = record { size = 0; val = λ _. (blank, blank) }

cells-InCells : (n : ℕ) → n ≤ 1 → InCells (record { size = n; val = λ _. (blank, blank) })
unfolding elems
cells-InCells zero h = (omega arith, tt)
cells-InCells (suc zero) h = (omega arith, (omega arith, omega arith, tt))
cells-InCells (suc (suc n)) h = absurd (omega arith)

rdma_serve_read_example :
    Returns
      (λ found s'.
        (found ≡ ([], []) ∷ [])
        × Alike 16 fields InCells s'.pool (one_record 16 fields name (blank, blank))
        × Counted (one_fixed 16 fields name (blank, blank)) s')
      (serve_read 4096 512 2 blank none_yet
        (7 ∷ [])
        user
        (padded 0 42)
        (one_fixed 16 fields name (blank, blank)))
unfolding get signed_lt signed to_digits elems
rdma_serve_read_example =
    rdma_serve_read_lem (one_fixed 16 fields name (blank, blank))
      (one_record 16 fields name (blank, blank)) 1 4096 512 2 42 blank none_yet (7 ∷ []) user
      (padded 0 42) (one_entry 16 fields name (blank, blank))
      (leaf 0 (one_entry 16 fields name (blank, blank) ∷ []))
      (one-Alike 16 fields name (blank, blank) InCells cells-InCells (omega arith))
      (record {
        stands = one-Stands 16 fields name (blank, blank) 1 (omega arith);
        fits = omega arith;
      })
      refl (remove_key_index_prefix-padded user 0 42 refl (omega arith)).0 (omega arith)
      (omega arith) (omega arith) (omega arith) (omega arith) (omega arith)

-- The second node of a pool at 4096, and the null pointer.
node_addresses : (node_of 4096 512 5120 ≡ some (some 2)) × (node_of 4096 512 0 ≡ some none)
unfolding node_of
node_addresses = (refl, refl)

-- 34 bytes.
abbrev long_key : Str
long_key = replicate 34 b'k'

serve-long_example :
    Returns
      (λ _ msg.
        serve blank none_yet 4096 512 2
          (msg ++ (7 ∷ []))
          3
          (one_fixed 16 fields name (blank, blank))
        ≡ fault)
      (insert_request [] long_key [] [])
serve-long_example =
    serve-long 4096 512 2 3 blank none_yet (one_fixed 16 fields name (blank, blank)) [] long_key []
      (7 ∷ []) (omega arith) (omega arith)
