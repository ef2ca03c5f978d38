-- ===== src/BPlusTree/Access/Revalue.antt =====
-- A tree in which the fields at one address have changed, and the invariant of it.
use fat_btree.Prelude.{
  ℕ, ◌≡◌, refl, sym, ap, ◌∙◌, Option, List, [], ◌∷◌, ◌++◌, arith, ◌==◌, length, All, if◌then◌else◌,
}
use fat_btree.FieldTable.{FieldTable}
use fat_btree.BPlusTree.Store.{Node}
use fat_btree.BPlusTree.Stands.{height, height_rest}
use fat_btree.BPlusTree.Tree.{
  Entry, Tree, leaf, inner, Rest, end, more, Token, item, sep, addr, addrs, seps, keys_of, ats_of,
  items, flat, flat_rest, entries, count, count_rest, count_in, Cell, IsValueAt, Rep, RepRest, Fits,
  FitsRest, is_leaf_tree, node_keys, node_childs,
}

module _ {K : Type 0} (x : ℕ) (v : FieldTable) where
  abbrev pub revalue_entry : Entry K → Entry K
  revalue_entry e = record e { val = if e.at == x then v else e.val }

  abbrev pub revalue : List (Entry K) → List (Entry K)
  revalue [] = []
  revalue (e ∷ es) = revalue_entry e ∷ revalue es

  abbrev mutual
    pub revalue_tree : Tree K → Tree K
    revalue_tree (leaf a es) = leaf a (revalue es)
    revalue_tree (inner a t r) = inner a (revalue_tree t) (revalue_rest r)

    pub revalue_rest : Rest K → Rest K
    revalue_rest end = end
    revalue_rest (more k t r) = more k (revalue_tree t) (revalue_rest r)

  abbrev pub revalue_walk : List (Token K) → List (Token K)
  revalue_walk [] = []
  revalue_walk (item e ∷ ts) = item (revalue_entry e) ∷ revalue_walk ts
  revalue_walk (sep k ∷ ts) = sep k ∷ revalue_walk ts

  keys_of-revalue : (es : List (Entry K)) → keys_of (revalue es) ≡ keys_of es
  keys_of-revalue [] = refl
  keys_of-revalue (e ∷ es) = ap (λ (l : List K). e.key ∷ l) (keys_of-revalue es)

  ats_of-revalue : (es : List (Entry K)) → ats_of (revalue es) ≡ ats_of es
  ats_of-revalue [] = refl
  ats_of-revalue (e ∷ es) = ap (λ (l : List ℕ). e.at ∷ l) (ats_of-revalue es)

  items-revalue : (es : List (Entry K)) → items (revalue es) ≡ revalue_walk (items es)
  items-revalue [] = refl
  items-revalue (e ∷ es) =
      ap (λ (l : List (Token K)). item (revalue_entry e) ∷ l) (items-revalue es)

  pub addr-revalue_tree : (t : Tree K) → addr (revalue_tree t) ≡ addr t
  addr-revalue_tree (leaf a es) = refl
  addr-revalue_tree (inner a t r) = refl

  seps-revalue_rest : (r : Rest K) → seps (revalue_rest r) ≡ seps r
  seps-revalue_rest end = refl
  seps-revalue_rest (more k t r) = ap (λ (l : List K). k ∷ l) (seps-revalue_rest r)

  addrs-revalue_rest : (r : Rest K) → addrs (revalue_rest r) ≡ addrs r
  addrs-revalue_rest end = refl
  addrs-revalue_rest (more k t r) = λ i. addr-revalue_tree t i ∷ addrs-revalue_rest r i

  revalue_walk-append :
      (xs ys : List (Token K)) → revalue_walk (xs ++ ys) ≡ revalue_walk xs ++ revalue_walk ys
  revalue_walk-append [] ys = refl
  revalue_walk-append (item e ∷ xs) ys =
      ap (λ (l : List (Token K)). item (revalue_entry e) ∷ l) (revalue_walk-append xs ys)
  revalue_walk-append (sep k ∷ xs) ys =
      ap (λ (l : List (Token K)). sep k ∷ l) (revalue_walk-append xs ys)

  pub entries-revalue_walk :
      (ts : List (Token K)) → entries (revalue_walk ts) ≡ revalue (entries ts)
  entries-revalue_walk [] = refl
  entries-revalue_walk (item e ∷ ts) =
      ap (λ (l : List (Entry K)). revalue_entry e ∷ l) (entries-revalue_walk ts)
  entries-revalue_walk (sep k ∷ ts) = entries-revalue_walk ts

  mutual
    pub flat-revalue_tree : (t : Tree K) → flat (revalue_tree t) ≡ revalue_walk (flat t)
    flat-revalue_tree (leaf a es) = items-revalue es
    flat-revalue_tree (inner a t r) =
        (λ i. flat-revalue_tree t i ++ flat-revalue_rest r i)
        ∙ sym (revalue_walk-append (flat t) (flat_rest r))

    flat-revalue_rest : (r : Rest K) → flat_rest (revalue_rest r) ≡ revalue_walk (flat_rest r)
    flat-revalue_rest end = refl
    flat-revalue_rest (more k t r) =
        ap (λ (l : List (Token K)). sep k ∷ l)
          ((λ i. flat-revalue_tree t i ++ flat-revalue_rest r i)
            ∙ sym (revalue_walk-append (flat t) (flat_rest r)))

  mutual
    pub count-revalue_tree : (y : ℕ) (t : Tree K) → count y (revalue_tree t) ≡ count y t
    count-revalue_tree y (leaf a es) = omega (arith, ap (count_in y) (ats_of-revalue es))
    count-revalue_tree y (inner a t r) =
        omega (arith, count-revalue_tree y t, count-revalue_rest y r)

    count-revalue_rest : (y : ℕ) (r : Rest K) → count_rest y (revalue_rest r) ≡ count_rest y r
    count-revalue_rest y end = refl
    count-revalue_rest y (more k t r) =
        omega (arith, count-revalue_tree y t, count-revalue_rest y r)

  mutual
    pub height-revalue_tree : (t : Tree K) → height (revalue_tree t) ≡ height t
    height-revalue_tree (leaf a es) = refl
    height-revalue_tree (inner a t r) = omega (arith, height-revalue_tree t, height-revalue_rest r)

    height-revalue_rest : (r : Rest K) → height_rest (revalue_rest r) ≡ height_rest r
    height-revalue_rest end = refl
    height-revalue_rest (more k t r) = omega (arith, height-revalue_tree t, height-revalue_rest r)

  mutual
    pub Fits-revalue_tree : (m : ℕ) (t : Tree K) → Fits m t → Fits m (revalue_tree t)
    Fits-revalue_tree m (leaf a es) f = omega (arith, ap length (keys_of-revalue es))
    Fits-revalue_tree m (inner a t r) (n, ft, fr) = (
      omega (arith, ap length (seps-revalue_rest r)),
      Fits-revalue_tree m t ft,
      FitsRest-revalue_rest m r fr,
    )

    FitsRest-revalue_rest : (m : ℕ) (r : Rest K) → FitsRest m r → FitsRest m (revalue_rest r)
    FitsRest-revalue_rest m end f = tt
    FitsRest-revalue_rest m (more k t r) (ft, fr) =
        (Fits-revalue_tree m t ft, FitsRest-revalue_rest m r fr)

  module _ (h h' : ℕ → Node K)
      (changed : (y : ℕ) → h' y ≡ record (h y) { val = if y == x then v else (h y).val }) where
    Cell-revalue_tree :
        (p : Option ℕ) (t : Tree K)
        → is_leaf_tree (revalue_tree t) ≡ is_leaf_tree t
        → node_keys (revalue_tree t) ≡ node_keys t
        → node_childs (revalue_tree t) ≡ node_childs t
        → Cell h p t
        → Cell h' p (revalue_tree t)
    Cell-revalue_tree p t l k c cell =
        let e : h' (addr (revalue_tree t))
            ≡ record (h (addr t)) { val = if addr t == x then v else (h (addr t)).val } =
          ap h' (addr-revalue_tree t) ∙ changed (addr t) in
        record {
          value = ap (λ (n : Node K). n.is_value) e ∙ cell.value;
          leafy = ap (λ (n : Node K). n.is_leaf) e ∙ cell.leafy ∙ sym l;
          parent = ap (λ (n : Node K). n.parent) e ∙ cell.parent;
          key = ap (λ (n : Node K). n.key) e ∙ cell.key ∙ sym k;
          child = ap (λ (n : Node K). n.child) e ∙ cell.child ∙ sym c;
        }

    values-revalue : (es : List (Entry K)) → All (IsValueAt h) es → All (IsValueAt h') (revalue es)
    values-revalue [] vs = tt
    values-revalue (e ∷ es) (w, vs) = (
      (
        ap (λ (n : Node K). n.is_value) (changed e.at) ∙ w.0,
        ap (λ (n : Node K). n.val) (changed e.at)
            ∙ ap (λ (f : FieldTable). if e.at == x then v else f) w.1,
      ),
      values-revalue es vs,
    )

    mutual
      pub Rep-revalue_tree : (t : Tree K) (p : Option ℕ) → Rep h p t → Rep h' p (revalue_tree t)
      Rep-revalue_tree (leaf a es) p (c, vs) = (
        Cell-revalue_tree p (leaf a es) refl (keys_of-revalue es) (ats_of-revalue es) c,
        values-revalue es vs,
      )
      Rep-revalue_tree (inner a t r) p (c, rt, rr) = (
        Cell-revalue_tree p (inner a t r) refl (seps-revalue_rest r)
            (λ i. addr-revalue_tree t i ∷ addrs-revalue_rest r i) c,
        Rep-revalue_tree t _ rt,
        RepRest-revalue_rest r a rr,
      )

      RepRest-revalue_rest : (r : Rest K) (a : ℕ) → RepRest h a r → RepRest h' a (revalue_rest r)
      RepRest-revalue_rest end a rr = tt
      RepRest-revalue_rest (more k t r) a (rt, rr) =
          (Rep-revalue_tree t _ rt, RepRest-revalue_rest r a rr)
