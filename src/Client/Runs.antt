-- ===== src/Client/Runs.antt =====
-- The loop that waits for a reply, at concrete packets.
use fat_btree.Prelude.{◌≡◌, [], ◌∷◌, ◌++◌, arith, replicate}
use fat_btree.Run.{ok}
use fat_btree.Client.{await}
use fat_btree.Client.Requests.{await-replies}
use fat_btree.Codec.Header.{type_bytes}

await_example :
    await 0x0530
      (replicate 2 (type_bytes 0 0 ++ (1 ∷ [])) ++ ((type_bytes 0x0530 0 ++ (1 ∷ [])) ∷ ([] ∷ [])))
    ≡ ok tt ([] ∷ [])
await_example = await-replies 2 0x0530 (1 ∷ []) ([] ∷ []) (omega arith) (omega arith)
