-- ===== src/BPlusTree/Tree/Zipper.antt =====
-- A tree seen from one of its nodes: the trail above the node, what the pool holds of it, and how
-- the whole is put together again.
use fat_btree.Prelude.{
  ℕ, ◌+◌, ◌<◌, ◌≡◌, refl, sym, ap, ◌∙◌, false, Option, none, some, List, [], ◌∷◌, ◌++◌,
  append_assoc, append-nil, arith, length, length-append,
}
use fat_btree.BPlusTree.Store.{Node, root}
use fat_btree.BPlusTree.Tree.{
  Tree, inner, Rest, more, Token, sep, Trail, top, frame, addr, seps, addrs, node_keys, node_childs,
  flat, flat_rest, one, count, count_rest, Rep, RepRest, Fits, FitsRest,
}

abbrev pub Lefts : Type 0 → Type 0
Lefts K = List (Tree K × K)

module _ {K : Type 0} where
  abbrev pub left_keys : Lefts K → List K
  left_keys [] = []
  left_keys ((u, k) ∷ ls) = k ∷ left_keys ls

  abbrev pub left_addrs : Lefts K → List ℕ
  left_addrs [] = []
  left_addrs ((u, k) ∷ ls) = addr u ∷ left_addrs ls

  abbrev pub first_of : Lefts K → Tree K → Tree K
  first_of [] t = t
  first_of ((u, k) ∷ ls) t = u

  abbrev pub rest_of : Lefts K → Tree K → Rest K → Rest K
  rest_of [] t r = r
  rest_of ((u, k) ∷ ls) t r = more k (first_of ls t) (rest_of ls t r)

  abbrev pub rebuild : ℕ → Lefts K → Tree K → Rest K → Tree K
  rebuild a ls t r = inner a (first_of ls t) (rest_of ls t r)

  abbrev pub plug : Trail K → Tree K → Tree K
  plug top t = t
  plug (frame a ls r up) t = plug up (rebuild a ls t r)

  abbrev pub parent_of : Trail K → Option ℕ
  parent_of top = none
  parent_of (frame a ls r up) = some a

  abbrev pub left_flat : Lefts K → List (Token K)
  left_flat [] = []
  left_flat ((u, k) ∷ ls) = flat u ++ (sep k ∷ left_flat ls)

  abbrev pub before : Trail K → List (Token K)
  before top = []
  before (frame a ls r up) = before up ++ left_flat ls

  abbrev pub after : Trail K → List (Token K)
  after top = []
  after (frame a ls r up) = flat_rest r ++ after up

  abbrev pub left_count : ℕ → Lefts K → ℕ
  left_count x [] = 0
  left_count x ((u, k) ∷ ls) = count x u + left_count x ls

  abbrev pub trail_count : ℕ → Trail K → ℕ
  trail_count x top = 0
  trail_count x (frame a ls r up) = one x a + left_count x ls + count_rest x r + trail_count x up

  abbrev pub levels : Trail K → ℕ
  levels top = 0
  levels (frame a ls r up) = 1 + levels up

  abbrev pub RepLefts : (ℕ → Node K) → ℕ → Lefts K → Type 0
  RepLefts h a [] = Unit
  RepLefts h a ((u, k) ∷ ls) = Rep h (some a) u × RepLefts h a ls

  abbrev pub FitsLefts : ℕ → Lefts K → Type 0
  FitsLefts m [] = Unit
  FitsLefts m ((u, k) ∷ ls) = Fits m u × FitsLefts m ls

  abbrev pub FitsTrail : ℕ → Trail K → Type 0
  FitsTrail m top = Unit
  FitsTrail m (frame a ls r up) =
      (length (left_keys ls) + length (seps r) < m) × FitsLefts m ls × FitsRest m r × FitsTrail m up

  -- The node at `a` above the child at `f`, between the children `ls` and `r`.
  pub record FrameCell (h : ℕ → Node K) (p : Option ℕ) (a : ℕ) (ls : Lefts K) (f : ℕ) (r : Rest K)
      : Type 0 where
    pub value : (h a).is_value ≡ false
    pub leafy : (h a).is_leaf ≡ false
    pub parent : (h a).parent ≡ p
    pub key : (h a).key ≡ left_keys ls ++ seps r
    pub child : (h a).child ≡ left_addrs ls ++ (f ∷ addrs r)

  -- The trail ends at the node `f`; at its top stands the root.
  abbrev pub RepTrail : (ℕ → Node K) → Trail K → ℕ → Type 0
  RepTrail h top f = f ≡ root
  RepTrail h (frame a ls r up) f =
      FrameCell h (parent_of up) a ls f r × RepLefts h a ls × RepRest h a r × RepTrail h up a

  pub seps-rest_of :
      (ls : Lefts K) (t : Tree K) (r : Rest K) → seps (rest_of ls t r) ≡ left_keys ls ++ seps r
  seps-rest_of [] t r = refl
  seps-rest_of ((u, k) ∷ ls) t r = ap (λ (l : List K). k ∷ l) (seps-rest_of ls t r)

  pub childs-rebuild :
      (a : ℕ) (ls : Lefts K) (t : Tree K) (r : Rest K)
      → node_childs (rebuild a ls t r) ≡ left_addrs ls ++ (addr t ∷ addrs r)
  childs-rebuild a [] t r = refl
  childs-rebuild a ((u, k) ∷ ls) t r = ap (λ (l : List ℕ). addr u ∷ l) (childs-rebuild a ls t r)

  pub flat-rebuild :
      (a : ℕ) (ls : Lefts K) (t : Tree K) (r : Rest K)
      → flat (rebuild a ls t r) ≡ left_flat ls ++ (flat t ++ flat_rest r)
  flat-rebuild a [] t r = refl
  flat-rebuild a ((u, k) ∷ ls) t r =
      ap (λ (l : List (Token K)). flat u ++ (sep k ∷ l)) (flat-rebuild a ls t r)
      ∙ sym (append_assoc (flat u) (sep k ∷ left_flat ls) (flat t ++ flat_rest r))

  pub flat-plug : (c : Trail K) (t : Tree K) → flat (plug c t) ≡ before c ++ (flat t ++ after c)
  flat-plug top t = sym (append-nil (flat t))
  flat-plug (frame a ls r up) t =
      flat-plug up (rebuild a ls t r)
      ∙ ap (λ (l : List (Token K)). before up ++ (l ++ after up)) (flat-rebuild a ls t r)
      ∙ simp append_assoc

  pub count-rebuild :
      (x a : ℕ) (ls : Lefts K) (t : Tree K) (r : Rest K)
      → count x (rebuild a ls t r) ≡ one x a + left_count x ls + count x t + count_rest x r
  count-rebuild x a [] t r = omega arith
  count-rebuild x a ((u, k) ∷ ls) t r = omega (arith, count-rebuild x a ls t r)

  pub count-plug :
      (x : ℕ) (c : Trail K) (t : Tree K) → count x (plug c t) ≡ trail_count x c + count x t
  count-plug x top t = omega arith
  count-plug x (frame a ls r up) t =
      omega (arith, count-plug x up (rebuild a ls t r), count-rebuild x a ls t r)

  RepRest-rest_of :
      (h : ℕ → Node K) (a : ℕ) (ls : Lefts K) (t : Tree K) (r : Rest K)
      → RepLefts h a ls
      → Rep h (some a) t
      → RepRest h a r
      → Rep h (some a) (first_of ls t) × RepRest h a (rest_of ls t r)
  RepRest-rest_of h a [] t r l rt rr = (rt, rr)
  RepRest-rest_of h a ((u, k) ∷ ls) t r l rt rr = (l.0, RepRest-rest_of h a ls t r l.1 rt rr)

  pub Rep-rebuild :
      (h : ℕ → Node K) (p : Option ℕ) (a : ℕ) (ls : Lefts K) (t : Tree K) (r : Rest K)
      → FrameCell h p a ls (addr t) r
      → RepLefts h a ls
      → Rep h (some a) t
      → RepRest h a r
      → Rep h p (rebuild a ls t r)
  Rep-rebuild h p a ls t r c l rt rr =
      let kids = RepRest-rest_of h a ls t r l rt rr in
      (
        record {
          value = c.value;
          leafy = c.leafy;
          parent = c.parent;
          key = c.key ∙ sym (seps-rest_of ls t r);
          child = c.child ∙ sym (childs-rebuild a ls t r);
        },
        kids.0,
        kids.1,
      )

  -- A trail and the tree at its end make a whole tree, whose root is the root of the pool.
  pub Rep-plug :
      (h : ℕ → Node K) (c : Trail K) (t : Tree K)
      → RepTrail h c (addr t)
      → Rep h (parent_of c) t
      → Rep h none (plug c t) × (addr (plug c t) ≡ root)
  Rep-plug h top t e rt = (rt, e)
  Rep-plug h (frame a ls r up) t (c, l, rr, above) rt =
      Rep-plug h up (rebuild a ls t r) above (Rep-rebuild h (parent_of up) a ls t r c l rt rr)

  length-rest_of :
      (ls : Lefts K) (t : Tree K) (r : Rest K)
      → length (seps (rest_of ls t r)) ≡ length (left_keys ls) + length (seps r)
  length-rest_of ls t r = ap length (seps-rest_of ls t r) ∙ length-append (left_keys ls) (seps r)

  pub length-rebuild :
      (a : ℕ) (ls : Lefts K) (t : Tree K) (r : Rest K)
      → length (node_keys (rebuild a ls t r)) ≡ length (left_keys ls) + length (seps r)
  length-rebuild a ls t r = length-rest_of ls t r

  FitsRest-rest_of :
      (m : ℕ) (ls : Lefts K) (t : Tree K) (r : Rest K)
      → FitsLefts m ls
      → Fits m t
      → FitsRest m r
      → Fits m (first_of ls t) × FitsRest m (rest_of ls t r)
  FitsRest-rest_of m [] t r l ft fr = (ft, fr)
  FitsRest-rest_of m ((u, k) ∷ ls) t r l ft fr = (l.0, FitsRest-rest_of m ls t r l.1 ft fr)

  -- The children of the rebuilt node fit; its own size is not looked at.
  pub FitsRest-rebuild :
      (m : ℕ) (ls : Lefts K) (t : Tree K) (r : Rest K)
      → FitsLefts m ls
      → Fits m t
      → FitsRest m r
      → Fits m (first_of ls t) × FitsRest m (rest_of ls t r)
  FitsRest-rebuild = FitsRest-rest_of

  pub Fits-plug : (m : ℕ) (c : Trail K) (t : Tree K) → FitsTrail m c → Fits m t → Fits m (plug c t)
  Fits-plug m top t fc ft = ft
  Fits-plug m (frame a ls r up) t (n, fl, fr, fu) ft =
      let kids = FitsRest-rest_of m ls t r fl ft fr in
      Fits-plug m up (rebuild a ls t r) fu (omega (arith, length-rest_of ls t r), kids.0, kids.1)
