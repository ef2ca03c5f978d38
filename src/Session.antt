-- ===== src/Session.antt =====
-- A client and a backend together: the requests of db/b_plus_tree_db.cc, given to the loop of main of
-- backend.cc, and the replies, given back to the loops that wait for them.
mod Runs
use fat_btree.Prelude.{
  ℕ, ◌+◌, ◌%◌, ◌^◌, ◌≤◌, ◌<◌, ◌≡◌, refl, sym, ap, ◌∙◌, some, none, List, [], ◌∷◌, ◌++◌,
  append_assoc, append-nil, arith, length-append, subst, if◌then◌else◌, ◌==◌, length, Str,
}
use fat_btree.Run.{Run, Cmd, ok, and_then, Returns, mono, bind}
use fat_btree.Order.{str_order}
use fat_btree.FieldTable.{FieldTable, update_field_table}
use fat_btree.FieldTable.Names.{Unique, update_field_table-Unique}
use fat_btree.Backend.{
  Sent, Tree, Answered, degree, handle_insert, handle_update, handle_query, sends, serve,
}
use fat_btree.BPlusTree.Load.{Library}
use fat_btree.Backend.Serve.{handle_insert_lem, handle_update_lem, handle_query_lem, done, answer}
use fat_btree.BPlusTree.Store.{max_node_size, root}
use fat_btree.BPlusTree.Access.Bias.{node_at_bias-root}
use fat_btree.BPlusTree.Access.{node_at_bias}
use fat_btree.BPlusTree.Access.Insert.{Inserted}
use fat_btree.BPlusTree.Access.Joined.{new_entry}
use fat_btree.BPlusTree.Access.Seen.{Seen}
use fat_btree.BPlusTree.Access.Update.{Updated}
use fat_btree.BPlusTree.Overflow.Climb.{Holds}
use fat_btree.BPlusTree.Records.{put, get, Absent}
use fat_btree.BPlusTree.Records.Put.{get-put_same}
use fat_btree.BPlusTree.Tree as Shape
use fat_btree.BPlusTree.Tree.{top, flat, entries, Token}
use fat_btree.Client.{key_index, read_request, update_request, insert_request, await, await_values}
use fat_btree.Client.Requests.{
  read_bytes, update_bytes, insert_bytes, update_request-update_bytes, read_request-read_bytes,
  insert_request-insert_bytes, await_values-reply,
}
use fat_btree.Codec.{capacity, extract_msg_type}
use fat_btree.Codec.Header.{type_bytes, fbt_bytes, extract_msg_type-type_bytes}
use fat_btree.Codec.RoundTrip.{key_bytes, values_bytes, Short}
use fat_btree.KeyIndex.{scan_key_index, get_part_id}

-- The packets that a client receives: the reply, if the backend has sent one.
abbrev pub received : Answered → List (List ℕ)
received a = elim a.sent [ none ↦ [] | some sent ↦ sent.context ∷ [] ]

module _ (lib : Library) (size fuel mode mask : ℕ) (junk : List ℕ) (table key : Str) where
  -- Insert, as the backend serves it; the buffer that received the request holds `junk` behind it.
  unfoldable pub serve_insert : FieldTable → Cmd Tree (Unit {0})
  serve_insert values s = and_then (insert_request table key values []) λ _ msg.
      and_then (serve lib size fuel mode mask (msg ++ junk) 0 s)
        λ a s'. and_then (await 0x0528 (received a)) λ _ _. ok tt s'

  -- Update, as the backend serves it when the switch does not change the request.
  unfoldable pub serve_update : FieldTable → Cmd Tree (Unit {0})
  serve_update values s = and_then (update_request table key values []) λ _ msg.
      and_then (serve lib size fuel mode mask (msg ++ junk) 0 s)
        λ a s'. and_then (await 0x0530 (received a)) λ _ _. ok tt s'

  -- Read, as the backend serves it when the switch does not change the request.
  unfoldable pub serve_read : Cmd Tree FieldTable
  serve_read s = and_then (read_request table key []) λ _ msg.
      and_then (serve lib size fuel mode mask (msg ++ junk) 0 s)
        λ a s'. and_then (await_values (received a)) λ values _. ok values s'

-- The reply of a handler, as the loop of main passes it on.
abbrev Replied : (Sent → Tree → Type 0) → Answered → Tree → Type 0
Replied P a s' = (sent : Sent) × (a ≡ record { sent = some sent; printed = [] }) × P sent s'

sends-Replied :
    (P : Sent → Tree → Type 0) (r : Run Tree Sent) → Returns P r → Returns (Replied P) (sends r)
sends-Replied P r p = bind P (Replied P) r _ p λ sent s' q. (sent, refl, q)

zero_bias : (mode : ℕ) → if◌then◌else◌ {A = ℕ} (mode == 0) 0 0 ≡ 0
zero_bias mode = ground arith

module _ (lib : Library) (mask : ℕ) (table key : Str) (part number : ℕ)
    (numbered : scan_key_index (key_index table key) ≡ some number)
    (routed : get_part_id (key_index table key) ≡ some part) where
  pub serve_read_lem :
      (n size fuel mode : ℕ) (junk : List ℕ) (s : Tree) (t : Shape.Tree Str) (e : Shape.Entry Str)
      → Holds degree n s t
      → get (key_index table key) (entries (flat t)) ≡ some e
      → 0 < size
      → n + 1 ≤ fuel
      → length (read_bytes table key part number) ≤ capacity
      → 5 + length (values_bytes e.val) ≤ capacity
      → Returns
          (λ fields s'. (fields ≡ e.val) × Seen s s')
          (serve_read lib size fuel mode mask junk table key s)
  unfolding serve_read serve
  serve_read_lem n size fuel mode junk s t e holds got pos enough room space =
      let k = key_index table key in
      let st = holds.stands in
      let sent_read : read_request table key [] ≡ ok tt (read_bytes table key part number) =
        read_request-read_bytes table key part number numbered routed room in
      let head =
        extract_msg_type-type_bytes 0x0527 (part % 256)
          ((fbt_bytes number 0 ++ key_bytes k) ++ junk) (omega arith) in
      let body = append_assoc (fbt_bytes number 0) (key_bytes k) junk in
      let at : node_at_bias size (if◌then◌else◌ {A = ℕ} (mode == 0) 0 0) ≡ some (Shape.addr t) =
        ap (node_at_bias size) (zero_bias mode)
        ∙ node_at_bias-root size pos
        ∙ ap some (sym st.trail) in
      rw (sent_read, head)
        (bind (Replied λ sent s'. (sent ≡ answer e.val 0) × Seen s s')
          (λ fields s'. (fields ≡ e.val) × Seen s s')
          (sends (handle_query size fuel mode ((fbt_bytes number 0 ++ key_bytes k) ++ junk) 0 s)) _
          (sends-Replied _ _ (
            subst
              (λ (b : List ℕ).
                Returns (λ sent s'. (sent ≡ answer e.val 0) × Seen s s')
                  (handle_query size fuel mode b 0 s))
              (sym body)
              (handle_query_lem n size fuel mode 0 number 0 s k e top t junk
                (record { stands = st; fits = holds.fits; under = tt; over = tt }) (omega arith) at
                (ap (λ (l : List (Token Str)). get k (entries l)) (append-nil (flat t)) ∙ got)
                (omega (arith, st.tall)) (omega arith) space)))
          λ a s' (sent, there, (same, seen)).
            let reply_there : await_values (received a) ≡ ok e.val [] =
              ap (λ (b : Answered). await_values (received b)) there
              ∙ ap (λ (r : Sent). await_values (r.context ∷ [])) same
              ∙ ap (λ (l : List ℕ). await_values ((type_bytes 0x0529 0 ++ l) ∷ []))
                  (sym (append-nil (values_bytes e.val)))
              ∙ await_values-reply e.val [] [] (omega arith) in
            rw reply_there (refl, seen))

  -- The request of an Update, given to the loop of main, is answered, and that record of the backend's
  -- tree then has the fields that update_field_table makes of the request and the old ones; all other
  -- records are the same. The tree stands and has a record of the key, the decimal key fits the 48 bits
  -- and names a quarter, the request fits into the 1472 bytes of a buffer, there is a level of fuel more
  -- than the tree is high, and the switch has not changed the request.
  pub serve_update_lem :
      (n size fuel mode : ℕ) (junk : List ℕ) (s : Tree) (t : Shape.Tree Str) (e : Shape.Entry Str)
      (v : FieldTable)
      → Holds degree n s t
      → get (key_index table key) (entries (flat t)) ≡ some e
      → 0 < size
      → n + 1 ≤ fuel
      → length (update_bytes table key part number v) ≤ capacity
      → Returns
          (λ _ s'. Updated degree n s t e v s')
          (serve_update lib size fuel mode mask junk table key v s)
  unfolding serve_update serve await
  serve_update_lem n size fuel mode junk s t e v holds got pos enough room =
      let k = key_index table key in
      let st = holds.stands in
      let sent_update : update_request table key v []
          ≡ ok tt (update_bytes table key part number v) =
        update_request-update_bytes table key part number numbered routed v room in
      let head =
        extract_msg_type-type_bytes 0x0531 (part % 256)
          ((fbt_bytes number 0 ++ (key_bytes k ++ values_bytes v)) ++ junk) (omega arith) in
      let body : (fbt_bytes number 0 ++ (key_bytes k ++ values_bytes v)) ++ junk
          ≡ fbt_bytes number 0 ++ (key_bytes k ++ (values_bytes v ++ junk)) =
        append_assoc (fbt_bytes number 0) (key_bytes k ++ values_bytes v) junk
        ∙ ap (λ (l : List ℕ). fbt_bytes number 0 ++ l)
            (append_assoc (key_bytes k) (values_bytes v) junk) in
      let lk : length (key_bytes k ++ values_bytes v)
          ≡ length (key_bytes k) + length (values_bytes v) =
        length-append (key_bytes k) (values_bytes v) in
      let at : node_at_bias size 0 ≡ some (Shape.addr t) =
        node_at_bias-root size pos ∙ ap some (sym st.trail) in
      let back : extract_msg_type (type_bytes 0x0530 0) ≡ ok 0x0530 [] =
        extract_msg_type-type_bytes 0x0530 0 [] (omega arith) in
      rw (sent_update, head)
        (bind (Replied λ sent s'. (sent ≡ done 0x0530 0) × Updated degree n s t e v s')
          (λ _ s'. Updated degree n s t e v s')
          (sends (
            handle_update size fuel
              ((fbt_bytes number 0 ++ (key_bytes k ++ values_bytes v)) ++ junk) 0 s))
          _
          (sends-Replied _ _ (
            subst
              (λ (b : List ℕ).
                Returns (λ sent s'. (sent ≡ done 0x0530 0) × Updated degree n s t e v s')
                  (handle_update size fuel b 0 s))
              (sym body)
              (handle_update_lem n size fuel 0 number 0 s t k v e top t junk holds
                (record { stands = st; fits = holds.fits; under = tt; over = tt }) (omega arith) at
                (ap (λ (l : List (Token Str)). get k (entries l)) (append-nil (flat t)) ∙ got)
                (omega (arith, st.tall)) (omega (arith, lk)) (omega (arith, lk)))))
          λ a s' (sent, there, (same, u)). rw (there, same, back) u)

  -- The tree after an insert of a new record.
  module _ (n size fuel mode : ℕ) (junk : List ℕ) (s : Tree) (t : Shape.Tree Str)
      (v : FieldTable) where
    -- Insert of a new key ends, and the tree of the backend has the record.
    pub serve_insert_lem :
        Holds degree n s t
        → Absent (key_index table key) (entries (flat t))
        → n + 1 ≤ fuel
        → s.nb_node + n + 2 ≤ max_node_size
        → length (insert_bytes table key part v) ≤ capacity
        → Returns
            (λ _ s'. Inserted degree n s t (key_index table key) v s')
            (serve_insert lib size fuel mode mask junk table key v s)
    unfolding serve_insert serve await
    serve_insert_lem holds absent enough room short =
        let k = key_index table key in
        let sent_insert : insert_request table key v [] ≡ ok tt (insert_bytes table key part v) =
          insert_request-insert_bytes table key part number numbered routed v short in
        let head =
          extract_msg_type-type_bytes 0x0526 (part % 256) ((key_bytes k ++ values_bytes v) ++ junk)
            (omega arith) in
        let lk : length (key_bytes k ++ values_bytes v)
            ≡ length (key_bytes k) + length (values_bytes v) =
          length-append (key_bytes k) (values_bytes v) in
        let back : extract_msg_type (type_bytes 0x0528 0) ≡ ok 0x0528 [] =
          extract_msg_type-type_bytes 0x0528 0 [] (omega arith) in
        rw (sent_insert, head, append_assoc (key_bytes k) (values_bytes v) junk)
          (bind (Replied λ sent s'. (sent ≡ done 0x0528 0) × Inserted degree n s t k v s')
            (λ _ s'. Inserted degree n s t k v s')
            (sends (handle_insert fuel (key_bytes k ++ (values_bytes v ++ junk)) 0 s)) _
            (sends-Replied _ _ (
              handle_insert_lem n fuel 0 s t k v junk holds absent enough room (omega arith)
                (omega (arith, lk))))
            λ a s' (sent, there, (same, i)). rw (there, same, back) i)

    -- Read after Insert.
    abbrev insert_then_read : Cmd Tree FieldTable
    insert_then_read s0 =
        and_then (serve_insert lib size fuel mode mask junk table key v s0)
          λ _ s'. serve_read lib size fuel mode mask junk table key s'

    -- A record that Insert sends is what Read receives afterwards, both requests going through the loop
    -- of main: it dispatches on the type, both handlers end, and the fields are those inserted, in
    -- order. The tree stands and has no record of the key, the names of the fields are different, the
    -- key is a decimal number, both requests and the reply fit into the 1472 bytes of a buffer, the pool
    -- has room for n + 2 nodes, where n bounds the height, there are n + 2 levels of fuel, and the
    -- switch changes nothing.
    pub insert_then_read_lem :
        Holds degree n s t
        → Absent (key_index table key) (entries (flat t))
        → Unique v
        → 0 < size
        → n + 2 ≤ fuel
        → s.nb_node + n + 2 ≤ max_node_size
        → length (insert_bytes table key part v) ≤ capacity
        → length (read_bytes table key part number) ≤ capacity
        → 5 + length (values_bytes v) ≤ capacity
        → Returns (λ fields _. fields ≡ v) (insert_then_read s)
    insert_then_read_lem holds absent unique pos enough room short short_read space =
        bind (λ _ s'. Inserted degree n s t (key_index table key) v s') (λ fields _. fields ≡ v)
          (serve_insert lib size fuel mode mask junk table key v s) _
          (serve_insert_lem holds absent (omega arith) room short)
          λ _ s' i.
            let e = new_entry degree n s (key_index table key) v in
            let kept : update_field_table v [] ≡ v = update_field_table-Unique v unique in
            mono _ (λ fields _. fields ≡ v) (serve_read lib size fuel mode mask junk table key s')
              (serve_read_lem (n + 1) size fuel mode junk s' i.tree e i.holds
                (ap (get (key_index table key)) i.same ∙ get-put_same e (entries (flat t))) pos
                (omega arith) short_read
                (subst (λ (w : FieldTable). 5 + length (values_bytes w) ≤ capacity) (sym kept)
                  space))
              λ fields _ (same, seen). same ∙ kept
