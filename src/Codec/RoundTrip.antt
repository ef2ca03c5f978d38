-- ===== src/Codec/RoundTrip.antt =====
-- What inject_* write and what extract_* make of it.
use fat_btree.Prelude.{
  ℕ, suc, ◌+◌, ◌%◌, ◌^◌, ◌≤◌, ◌<◌, ◌≡◌, refl, ap, ◌∙◌, List, [], ◌∷◌, ◌++◌, append_assoc,
  append-nil, arith, Bool-cases, inl, inr, leb, length, length-append, drop, drop-append, Str,
}
use fat_btree.Run.{Cmd, ok, fault, and_then, Returns}
use fat_btree.FieldTable.{FieldTable}
use fat_btree.Codec.{
  capacity, le32, put, inject_key_index, inject_pairs, inject_values, get_bytes, extract_key_index,
  extract_pairs, extract_values,
}
use fat_btree.Codec.Words.{of_le32-bytes}

abbrev pub key_bytes : Str → List ℕ
key_bytes k = le32 (length k % 2 ^ 32) ++ k

abbrev pub pairs_bytes : FieldTable → List ℕ
pairs_bytes [] = []
pairs_bytes ((k, v) ∷ vs) = key_bytes k ++ (key_bytes v ++ pairs_bytes vs)

abbrev pub values_bytes : FieldTable → List ℕ
values_bytes vs = le32 (length vs % 2 ^ 32) ++ pairs_bytes vs

-- A write and what follows it, if that is a write.
pub put_then :
    (as' bs out : List ℕ) (w : Cmd (List ℕ) (Unit {0}))
    → ((o : List ℕ) → length o ≤ capacity → w o ≡ put bs o)
    → and_then (put as' out) (λ _. w) ≡ put (as' ++ bs) out
unfolding put
put_then as' bs out w next = elim (Bool-cases (leb (length out + length as') capacity)) [
  | inl fits ↦
      let small : length (out ++ as') ≤ capacity = ground (arith, length-append out as') in
      rw (fits, next (out ++ as') small)
        (ground (arith, length-append as' bs, length-append out as', append_assoc out as' bs))
  | inr full ↦ ground (arith, length-append as' bs)
]

pub put-nil : (out : List ℕ) → length out ≤ capacity → ok tt out ≡ put [] out
unfolding put
put-nil out h = ground (arith, append-nil out)

pub put_fits :
    (bs out : List ℕ) → length out + length bs ≤ capacity → put bs out ≡ ok tt (out ++ bs)
unfolding put
put_fits bs out h = ground arith

pub put_full : (bs out : List ℕ) → capacity < length out + length bs → put bs out ≡ fault
unfolding put
put_full bs out h = ground arith

pub inject_key_index-put : (k : Str) (out : List ℕ) → inject_key_index k out ≡ put (key_bytes k) out
unfolding inject_key_index
inject_key_index-put k out = put_then (le32 (length k % 2 ^ 32)) k out (put k) (λ o h. refl)

inject_pairs-put :
    (vs : FieldTable) (out : List ℕ)
    → length out ≤ capacity
    → inject_pairs vs out ≡ put (pairs_bytes vs) out
unfolding inject_pairs
inject_pairs-put [] out h = put-nil out h
inject_pairs-put ((k, v) ∷ vs) out h =
    put_then (le32 (length k % 2 ^ 32)) (k ++ (key_bytes v ++ pairs_bytes vs)) out _ λ o1 h1.
      put_then k (key_bytes v ++ pairs_bytes vs) o1 _ λ o2 h2.
        put_then (le32 (length v % 2 ^ 32)) (v ++ pairs_bytes vs) o2 _
          λ o3 h3. put_then v (pairs_bytes vs) o3 (inject_pairs vs) (inject_pairs-put vs)

pub inject_values-put :
    (vs : FieldTable) (out : List ℕ) → inject_values vs out ≡ put (values_bytes vs) out
unfolding inject_values
inject_values-put vs out =
    put_then (le32 (length vs % 2 ^ 32)) (pairs_bytes vs) out (inject_pairs vs)
      (inject_pairs-put vs)

-- inject_values of fields that do not fit into what is left of the buffer writes past its end.
pub inject_values-full :
    (vs : FieldTable) (out : List ℕ)
    → capacity < length out + length (values_bytes vs)
    → inject_values vs out ≡ fault
inject_values-full vs out full = inject_values-put vs out ∙ put_full (values_bytes vs) out full

pub get_bytes-append : (bs rest : List ℕ) → get_bytes (length bs) (bs ++ rest) ≡ ok bs rest
unfolding get_bytes
get_bytes-append [] rest = refl
get_bytes-append (b ∷ bs) rest = rw (get_bytes-append bs rest)

pub extract_key_index-key_bytes :
    (k : Str) (rest : List ℕ)
    → length k < 2 ^ 32
    → extract_key_index (key_bytes k ++ rest) ≡ ok k rest
unfolding extract_key_index
extract_key_index-key_bytes k rest short =
    rw (of_le32-bytes (length k) short) (get_bytes-append k rest)

-- Short enough for the buffer, and so for the length words.
abbrev pub Short : List ℕ → Type 0
Short bs = length bs < 2 ^ 32

extract_pairs-step :
    (n : ℕ) (k v : Str) (vs : FieldTable) (bs rest : List ℕ)
    → Short k
    → Short v
    → extract_pairs n (bs ++ rest) ≡ ok vs rest
    → extract_pairs (suc n) (key_bytes k ++ (key_bytes v ++ (bs ++ rest))) ≡ ok ((k, v) ∷ vs) rest
unfolding extract_pairs
extract_pairs-step n k v vs bs rest sk sv next = rw (
  of_le32-bytes (length k) sk,
  get_bytes-append k (key_bytes v ++ (bs ++ rest)),
  of_le32-bytes (length v) sv,
  get_bytes-append v (bs ++ rest),
  next,
)

extract_pairs-pairs_bytes :
    (vs : FieldTable) (rest : List ℕ)
    → Short (pairs_bytes vs)
    → extract_pairs (length vs) (pairs_bytes vs ++ rest) ≡ ok vs rest
unfolding extract_pairs
extract_pairs-pairs_bytes [] rest short = refl
extract_pairs-pairs_bytes ((k, v) ∷ vs) rest short =
    let l1 = length-append (key_bytes k) (key_bytes v ++ pairs_bytes vs) in
    let l2 = length-append (key_bytes v) (pairs_bytes vs) in
    let step =
      extract_pairs-step (length vs) k v vs (pairs_bytes vs) rest (omega arith) (omega arith)
        (extract_pairs-pairs_bytes vs rest (omega arith)) in
    ap (extract_pairs (suc (length vs))) (
      append_assoc (key_bytes k) (key_bytes v ++ pairs_bytes vs) rest
      ∙ ap (λ (l : List ℕ). key_bytes k ++ l) (append_assoc (key_bytes v) (pairs_bytes vs) rest))
    ∙ step

length-pairs : (vs : FieldTable) → length vs ≤ length (pairs_bytes vs)
length-pairs [] = omega arith
length-pairs ((k, v) ∷ vs) = omega (
  arith,
  length-pairs vs,
  length-append (key_bytes k) (key_bytes v ++ pairs_bytes vs),
  length-append (key_bytes v) (pairs_bytes vs),
)

pub extract_values-values_bytes :
    (vs : FieldTable) (rest : List ℕ)
    → Short (values_bytes vs)
    → extract_values (values_bytes vs ++ rest) ≡ ok vs rest
unfolding extract_values
extract_values-values_bytes vs rest short =
    rw (of_le32-bytes (length vs) (omega (arith, length-pairs vs)))
      (extract_pairs-pairs_bytes vs rest (omega arith))

-- Fields that inject_values writes behind a message, with room for them in the buffer, come back from
-- extract_values there, and what follows them is left. Their number and lengths need no bound of
-- their own.
pub extract_values-inject_values :
    (vs : FieldTable) (out rest : List ℕ)
    → length out + length (values_bytes vs) ≤ capacity
    → Returns
        (λ _ msg. extract_values (drop (length out) msg ++ rest) ≡ ok vs rest)
        (inject_values vs out)
extract_values-inject_values vs out rest room =
    rw (inject_values-put vs out, put_fits (values_bytes vs) out room)
      (ap (λ (l : List ℕ). extract_values (l ++ rest)) (drop-append out (values_bytes vs))
        ∙ extract_values-values_bytes vs rest (omega arith))
