-- ===== src/RdmaCodec/Fixed.antt =====
-- The overloads for fixed-size containers against those for std::string.
use fat_btree.Prelude.{
  ℕ, zero, suc, ◌+◌, ◌%◌, ◌^◌, ◌≤◌, ◌<◌, ◌≡◌, refl, sym, ap, ◌∙◌, true, false, List, [], ◌∷◌, ◌++◌,
  append_assoc, subst, arith, leb, drop, drop-append, ◌==◌, ==_self, length,
}
use fat_btree.Run.{fault, Returns, mono, bind}
use fat_btree.FieldTable.{FieldTable}
use fat_btree.FixedArray.{elems, to_vector}
use fat_btree.Codec.{capacity, le32, put}
use fat_btree.Codec.Words.{of_le32-bytes}
use fat_btree.Codec.RoundTrip.{
  key_bytes, pairs_bytes, values_bytes, put-nil, put_then, put_fits, inject_key_index-put,
  inject_values-put, get_bytes-append,
}
use fat_btree.RdmaCodec.{
  key_len, field_len, value_len, field_num, FixedStr, FixedTable, inject_key_index, inject_values,
  inject_fixed, inject_fixed_key, inject_fixed_pairs, inject_fixed_values, filled, extract_fixed,
  extract_fixed_key, extract_fixed_pairs, extract_fixed_values, store_pair,
}

length-elems : {A : Type 0} (f : ℕ → A) (i n : ℕ) → length (elems f i n) ≡ n
unfolding elems
length-elems f i zero = refl
length-elems f i (suc n) = ap suc (length-elems f (suc i) n)

-- The fields of a VAL_TYPE, as RDMARead makes strings of them.
abbrev pub fields : List (FixedStr × FixedStr) → FieldTable
fields [] = []
fields ((k, v) ∷ ps) = (to_vector k, to_vector v) ∷ fields ps

-- Sizes that the arrays have cells for.
abbrev pub Sized : List (FixedStr × FixedStr) → Type 0
Sized [] = Unit
Sized ((k, v) ∷ ps) = (k.size ≤ field_len) × (v.size ≤ value_len) × Sized ps

inject_fixed-put :
    (max : ℕ) (a : FixedStr) (out : List ℕ)
    → a.size ≤ max
    → inject_fixed max a out ≡ put (key_bytes (to_vector a)) out
unfolding inject_fixed
inject_fixed-put max a out h =
    let e : leb a.size max ≡ true = ground arith in
    rw e (
      put_then (le32 (a.size % 2 ^ 32)) (to_vector a) out (put (to_vector a)) (λ o h. refl)
      ∙ ap (λ (n : ℕ). put (le32 (n % 2 ^ 32) ++ to_vector a) out)
          (sym (length-elems a.val 0 a.size)))

-- inject_key_index of a KEY_TYPE writes what that of its string writes.
pub inject_fixed_key-inject_key_index :
    (a : FixedStr) (out : List ℕ)
    → a.size ≤ key_len
    → inject_fixed_key a out ≡ inject_key_index (to_vector a) out
unfolding inject_fixed_key
inject_fixed_key-inject_key_index a out h =
    inject_fixed-put key_len a out h ∙ sym (inject_key_index-put (to_vector a) out)

inject_fixed_pairs-put :
    (f : ℕ → FixedStr × FixedStr) (i n : ℕ) (out : List ℕ)
    → Sized (elems f i n)
    → length out ≤ capacity
    → inject_fixed_pairs f i n out ≡ put (pairs_bytes (fields (elems f i n))) out
unfolding inject_fixed_pairs elems
inject_fixed_pairs-put f i zero out sized h = put-nil out h
inject_fixed_pairs-put f i (suc n) out (sk, sv, sized) h =
    let k = key_bytes (to_vector (f i).0) in
    let v = key_bytes (to_vector (f i).1) in
    let ps = pairs_bytes (fields (elems f (suc i) n)) in
    rw (inject_fixed-put field_len (f i).0 out sk) (
      put_then k (v ++ ps) out _ λ o1 h1.
        rw (inject_fixed-put value_len (f i).1 o1 sv)
          (put_then v ps o1 _ λ o2 h2. inject_fixed_pairs-put f (suc i) n o2 sized h2))

length-fields : (ps : List (FixedStr × FixedStr)) → length (fields ps) ≡ length ps
length-fields [] = refl
length-fields (p ∷ ps) = ap suc (length-fields ps)

-- inject_values of fields in fixed-size containers writes what the overload for strings writes of the
-- same fields, if no size is larger than its container.
pub inject_fixed_values-inject_values :
    (values : FixedTable) (out : List ℕ)
    → values.size ≤ field_num
    → Sized (to_vector values)
    → inject_fixed_values values out ≡ inject_values (fields (to_vector values)) out
unfolding inject_fixed_values
inject_fixed_values-inject_values values out few sized =
    let vs = fields (to_vector values) in
    let e : leb values.size field_num ≡ true = ground arith in
    let len : values.size ≡ length vs =
      sym (length-fields (to_vector values) ∙ length-elems values.val 0 values.size) in
    rw e (
      put_then (le32 (values.size % 2 ^ 32)) (pairs_bytes vs) out _
        (λ o h. inject_fixed_pairs-put values.val 0 values.size o sized h)
      ∙ ap (λ (n : ℕ). put (le32 (n % 2 ^ 32) ++ pairs_bytes vs) out) len)
    ∙ sym (inject_values-put vs out)

elems-shift : {A : Type 0} (f : ℕ → A) (i n : ℕ) → elems f (suc i) n ≡ elems (λ x. f (suc x)) i n
unfolding elems
elems-shift f i zero = refl
elems-shift f i (suc n) = rw (elems-shift f (suc i) n) refl

elems-filled : (bs : List ℕ) (f : ℕ → ℕ) → elems (filled bs f) 0 (length bs) ≡ bs
unfolding elems
elems-filled [] f = refl
elems-filled (b ∷ bs) f =
    rw (elems-shift (filled (b ∷ bs) f) 0 (length bs))
      (ap (λ (l : List ℕ). b ∷ l) (elems-filled bs (λ x. f (suc x))))

pub extract_fixed-bytes :
    (max : ℕ) (a : FixedStr) (k rest : List ℕ)
    → length k < 2 ^ 32
    → length k ≤ max
    → Returns
        (λ b rest'. (to_vector b ≡ k) × (rest' ≡ rest))
        (extract_fixed max a (key_bytes k ++ rest))
unfolding extract_fixed
extract_fixed-bytes max a k rest short fits =
    let e : leb (length k) max ≡ true = ground arith in
    rw (of_le32-bytes (length k) short, get_bytes-append k rest, e) (elems-filled k a.val, refl)

pub extract_fixed_key-long :
    (a : FixedStr) (k rest : List ℕ)
    → key_len < length k
    → length k < 2 ^ 32
    → extract_fixed_key a (key_bytes k ++ rest) ≡ fault
unfolding extract_fixed_key extract_fixed
extract_fixed_key-long a k rest long short =
    let e : leb (length k) key_len ≡ false = ground arith in
    rw (of_le32-bytes (length k) short, get_bytes-append k rest, e) refl

-- Names and values that the containers have cells for.
abbrev pub Fitting : FieldTable → Type 0
Fitting [] = Unit
Fitting ((k, v) ∷ vs) = (length k ≤ field_len) × (length v ≤ value_len) × Fitting vs

elems-same :
    {A : Type 0} (f g : ℕ → A) (i n : ℕ)
    → ((j : ℕ) → j < i + n → f j ≡ g j)
    → elems f i n ≡ elems g i n
unfolding elems
elems-same f g i zero same = refl
elems-same f g i (suc n) same =
    rw (same i (omega arith), elems-same f g (suc i) n (λ j h. same j (omega arith))) refl

extract_fixed_pairs-bytes :
    (vs : FieldTable) (i : ℕ) (f : ℕ → FixedStr × FixedStr) (rest : List ℕ)
    → Fitting vs
    → Returns
        (λ g rest'.
          (fields (elems g i (length vs)) ≡ vs) × (rest' ≡ rest) × ((j : ℕ) → j < i → g j ≡ f j))
        (extract_fixed_pairs (length vs) i f (pairs_bytes vs ++ rest))
unfolding extract_fixed_pairs elems
extract_fixed_pairs-bytes [] i f rest fit = (refl, refl, λ j h. refl)
extract_fixed_pairs-bytes ((k, v) ∷ vs) i f rest (fk, fv, fit) =
    let Q : (ℕ → FixedStr × FixedStr) → List ℕ → Type 0 = λ g rest'.
      (fields (elems g i (suc (length vs))) ≡ (k, v) ∷ vs)
      × (rest' ≡ rest)
      × ((j : ℕ) → j < i → g j ≡ f j) in
    let bytes : pairs_bytes ((k, v) ∷ vs) ++ rest
        ≡ key_bytes k ++ (key_bytes v ++ (pairs_bytes vs ++ rest)) =
      append_assoc (key_bytes k) (key_bytes v ++ pairs_bytes vs) rest
      ∙ ap (λ (l : List ℕ). key_bytes k ++ l) (append_assoc (key_bytes v) (pairs_bytes vs) rest) in
    subst (λ (l : List ℕ). Returns Q (extract_fixed_pairs (suc (length vs)) i f l)) (sym bytes)
      (bind (λ a r. (to_vector a ≡ k) × (r ≡ key_bytes v ++ (pairs_bytes vs ++ rest))) Q
        (extract_fixed field_len (f i).0 (key_bytes k ++ (key_bytes v ++ (pairs_bytes vs ++ rest))))
        _
        (extract_fixed-bytes field_len (f i).0 k (key_bytes v ++ (pairs_bytes vs ++ rest))
          (omega arith) fk)
        λ a r (ea, er). rw er (
          bind (λ b r. (to_vector b ≡ v) × (r ≡ pairs_bytes vs ++ rest)) Q
            (extract_fixed value_len (f i).1 (key_bytes v ++ (pairs_bytes vs ++ rest))) _
            (extract_fixed-bytes value_len (f i).1 v (pairs_bytes vs ++ rest) (omega arith) fv)
            λ b r (eb, er). rw er (
              mono _ Q
                (extract_fixed_pairs (length vs) (suc i) (store_pair f i (a, b))
                  (pairs_bytes vs ++ rest))
                (extract_fixed_pairs-bytes vs (suc i) (store_pair f i (a, b)) rest fit)
                λ g r (same, left, kept).
                  let here : g i ≡ (a, b) = kept i (omega arith) ∙ rw (==_self i) refl in
                  (
                    rw (here, ea, eb, same) refl,
                    left,
                    λ j h.
                        let ne : (j == i) ≡ false = ground arith in
                        kept j (omega arith) ∙ rw ne refl,
                  ))))

pub extract_fixed_values-values_bytes :
    (old : FixedTable) (vs : FieldTable) (rest : List ℕ)
    → length vs ≤ field_num
    → Fitting vs
    → Returns
        (λ values rest'. (fields (to_vector values) ≡ vs) × (rest' ≡ rest))
        (extract_fixed_values old (values_bytes vs ++ rest))
unfolding extract_fixed_values
extract_fixed_values-values_bytes old vs rest few fit =
    let e : leb (length vs) field_num ≡ true = ground arith in
    rw (of_le32-bytes (length vs) (omega arith), e)
      (bind
        (λ g rest'.
          (fields (elems g 0 (length vs)) ≡ vs)
          × (rest' ≡ rest)
          × ((j : ℕ) → j < 0 → g j ≡ old.val j))
        (λ values rest'. (fields (to_vector values) ≡ vs) × (rest' ≡ rest))
        (extract_fixed_pairs (length vs) 0 old.val (pairs_bytes vs ++ rest)) _
        (extract_fixed_pairs-bytes vs 0 old.val rest fit) λ g r (same, left, kept). (same, left))

-- Fields that inject_values, which the client calls, writes behind a message, with room for them in the
-- buffer, are what the backend's extract_values reads there into its fixed-size containers, and what follows
-- is left, if there are at most 10 fields with names of at most 6 bytes and values of at most 100.
pub extract_fixed_values-inject_values :
    (old : FixedTable) (vs : FieldTable) (out rest : List ℕ)
    → length vs ≤ field_num
    → Fitting vs
    → length out + length (values_bytes vs) ≤ capacity
    → Returns
        (λ _ msg.
          Returns
            (λ values rest'. (fields (to_vector values) ≡ vs) × (rest' ≡ rest))
            (extract_fixed_values old (drop (length out) msg ++ rest)))
        (inject_values vs out)
extract_fixed_values-inject_values old vs out rest few fit room =
    rw (inject_values-put vs out, put_fits (values_bytes vs) out room)
      (subst
        (λ (l : List ℕ).
          Returns (λ values rest'. (fields (to_vector values) ≡ vs) × (rest' ≡ rest))
            (extract_fixed_values old (l ++ rest)))
        (sym (drop-append out (values_bytes vs)))
        (extract_fixed_values-values_bytes old vs rest few fit))
