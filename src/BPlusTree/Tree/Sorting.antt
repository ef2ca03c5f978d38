-- ===== src/BPlusTree/Tree/Sorting.antt =====
-- Sorted walks, cut and joined.
use fat_btree.Prelude.{List, [], ◌∷◌, ◌++◌}
use fat_btree.Order.{Order}
use fat_btree.BPlusTree.Tree.{Token, AllBefore, Cross, Sorted}

module _ {K : Type 0} ⦃o : Order K⦄ where
  pub AllBefore-append :
      (xs ys : List (Token K)) (z : Token K)
      → AllBefore xs z
      → AllBefore ys z
      → AllBefore (xs ++ ys) z
  AllBefore-append [] ys z p q = q
  AllBefore-append (x ∷ xs) ys z p q = (p.0, AllBefore-append xs ys z p.1 q)

  pub AllBefore-cut :
      (xs ys : List (Token K)) (z : Token K)
      → AllBefore (xs ++ ys) z
      → AllBefore xs z × AllBefore ys z
  AllBefore-cut [] ys z p = (tt, p)
  AllBefore-cut (x ∷ xs) ys z p = let q = AllBefore-cut xs ys z p.1 in ((p.0, q.0), q.1)

  pub Cross-nil : (ys : List (Token K)) → Cross [] ys
  Cross-nil [] = tt
  Cross-nil (y ∷ ys) = (tt, Cross-nil ys)

  pub Cross-append : (xs ys zs : List (Token K)) → Cross xs ys → Cross xs zs → Cross xs (ys ++ zs)
  Cross-append xs [] zs p q = q
  Cross-append xs (y ∷ ys) zs p q = (p.0, Cross-append xs ys zs p.1 q)

  pub Cross-cut : (xs ys zs : List (Token K)) → Cross xs (ys ++ zs) → Cross xs ys × Cross xs zs
  Cross-cut xs [] zs p = (tt, p)
  Cross-cut xs (y ∷ ys) zs p = let q = Cross-cut xs ys zs p.1 in ((p.0, q.0), q.1)

  pub append-Cross : (xs ys zs : List (Token K)) → Cross xs zs → Cross ys zs → Cross (xs ++ ys) zs
  append-Cross xs ys [] p q = tt
  append-Cross xs ys (z ∷ zs) p q =
      (AllBefore-append xs ys z p.0 q.0, append-Cross xs ys zs p.1 q.1)

  pub cut-Cross : (xs ys zs : List (Token K)) → Cross (xs ++ ys) zs → Cross xs zs × Cross ys zs
  cut-Cross xs ys [] p = (tt, tt)
  cut-Cross xs ys (z ∷ zs) p =
      let a = AllBefore-cut xs ys z p.0 in
      let b = cut-Cross xs ys zs p.1 in ((a.0, b.0), (a.1, b.1))

  pub Sorted-append :
      (xs ys : List (Token K)) → Sorted xs → Sorted ys → Cross xs ys → Sorted (xs ++ ys)
  Sorted-append [] ys p q c = q
  Sorted-append (x ∷ xs) ys p q c =
      let cs = cut-Cross (x ∷ []) xs ys c in
      (Cross-append (x ∷ []) xs ys p.0 cs.0, Sorted-append xs ys p.1 q cs.1)

  pub Sorted-cut :
      (xs ys : List (Token K)) → Sorted (xs ++ ys) → Sorted xs × Sorted ys × Cross xs ys
  Sorted-cut [] ys p = (tt, p, Cross-nil ys)
  Sorted-cut (x ∷ xs) ys p =
      let s = Sorted-cut xs ys p.1 in
      let c = Cross-cut (x ∷ []) xs ys p.0 in ((c.0, s.0), s.1, append-Cross (x ∷ []) xs ys c.1 s.2)
