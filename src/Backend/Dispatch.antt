-- ===== src/Backend/Dispatch.antt =====
-- The loop of main, on the requests of the clients.
use fat_btree.Prelude.{
  ℕ, ◌+◌, ◌≤◌, ◌*◌, ◌≡◌, refl, sym, ap, ◌∙◌, some, List, [], ◌∷◌, ◌++◌, arith, length, All, Str,
}
use fat_btree.Run.{Run, ok, and_then, and_then_same, and_then_assoc, Returns, bind}
use fat_btree.Order.{str_order}
use fat_btree.FieldTable.{FieldTable}
use fat_btree.Backend.{Tree, Answered, degree, serve, serve_all}
use fat_btree.Backend.Serve.{done, handle_insert-insert}
use fat_btree.BPlusTree.Access.{insert}
use fat_btree.BPlusTree.Access.Fill.{Apart, Filled, fill, fill_lem}
use fat_btree.BPlusTree.Load.{Library}
use fat_btree.BPlusTree.Store.{empty_tree, max_node_size}
use fat_btree.Codec.Header.{type_bytes, extract_msg_type-type_bytes}
use fat_btree.Codec.RoundTrip.{key_bytes, values_bytes, Short}

module _ (lib : Library) (size fuel mode mask : ℕ) where
  -- The insert requests for some records, each with a queue and a partition, with `junk` behind it in
  -- the buffer, and the replies.
  module _ (queue part : Str → ℕ) (junk : List ℕ) where
    abbrev pub packet : Str × FieldTable → ℕ × List ℕ
    packet r =
        (queue r.0, type_bytes 0x0526 (part r.0) ++ (key_bytes r.0 ++ (values_bytes r.1 ++ junk)))

    abbrev pub packets : List (Str × FieldTable) → List (ℕ × List ℕ)
    packets [] = []
    packets (r ∷ rs) = packet r ∷ packets rs

    abbrev pub answer_to : Str × FieldTable → Answered
    answer_to r = record { sent = some (done 0x0528 (queue r.0)); printed = [] }

    abbrev pub answers : List (Str × FieldTable) → List Answered
    answers [] = []
    answers (r ∷ rs) = answer_to r ∷ answers rs

    abbrev pub Shorts : List (Str × FieldTable) → Type 0
    Shorts = All (λ (r : Str × FieldTable). Short r.0 × Short (values_bytes r.1))

    serve-insert :
        (r : Str × FieldTable) (s : Tree)
        → Short r.0
        → Short (values_bytes r.1)
        → serve lib size fuel mode mask (packet r).1 (packet r).0 s
          ≡ and_then (insert degree fuel r.0 r.1 s) (λ _. ok (answer_to r))
    unfolding serve
    serve-insert r s sk sv =
        rw
          (
            extract_msg_type-type_bytes 0x0526 (part r.0)
                (key_bytes r.0 ++ (values_bytes r.1 ++ junk)) (omega arith),
            handle_insert-insert fuel (queue r.0) s r.0 r.1 junk sk sv,
          )
          (and_then_assoc (insert degree fuel r.0 r.1 s) (λ _. ok (done 0x0528 (queue r.0)))
            (λ sent. ok (record { sent = some sent; printed = [] })))

    -- A series of insert requests runs the insertions in order.
    serve_all-fill :
        (rs : List (Str × FieldTable)) (s : Tree)
        → Shorts rs
        → serve_all lib size fuel mode mask (packets rs) s
          ≡ and_then (fill degree fuel rs s) (λ _. ok (answers rs))
    unfolding serve_all fill
    serve_all-fill [] s short = refl
    serve_all-fill (r ∷ rs) s ((sk, sv), short) = rw (serve-insert r s sk sv) (
        and_then_assoc (insert degree fuel r.0 r.1 s) (λ _. ok (answer_to r)) _
        ∙ and_then_same (insert degree fuel r.0 r.1 s) _ _ (λ _ s1.
          ap (λ (w : Run Tree (List Answered)). and_then w (λ rest. ok (answer_to r ∷ rest)))
            (serve_all-fill rs s1 short)
          ∙ and_then_assoc (fill degree fuel rs s1) (λ _. ok (answers rs))
              (λ rest. ok (answer_to r ∷ rest)))
        ∙ sym (
            and_then_assoc (insert degree fuel r.0 r.1 s) (λ _. fill degree fuel rs)
              (λ _. ok (answers (r ∷ rs)))))

    -- The loop answers each of a series of insert requests with different keys, in order and to its
    -- own queue, and the tree, which was empty, has all of the records. Keys and fields have lengths that a
    -- message can state, the fuel has a level for each request and one more, and the pool of 100000000
    -- nodes has room for fuel + 2 nodes for each request and one, which is so for up to 9998 requests.
    pub serve_all_lem :
        (rs : List (Str × FieldTable))
        → Shorts rs
        → Apart rs
        → 1 + length rs ≤ fuel
        → 1 + length rs * (fuel + 2) ≤ max_node_size
        → Returns
            (λ as' s'. (as' ≡ answers rs) × Filled degree (1 + length rs) rs [] s')
            (serve_all lib size fuel mode mask (packets rs) empty_tree)
    serve_all_lem rs short apart enough room = rw (serve_all-fill rs empty_tree short) (
        bind (λ _ s'. Filled degree (1 + length rs) rs [] s')
          (λ as' s'. (as' ≡ answers rs) × Filled degree (1 + length rs) rs [] s')
          (fill degree fuel rs empty_tree) _
          (fill_lem degree fuel rs (omega arith) apart enough room) λ _ s' f. (refl, f))
