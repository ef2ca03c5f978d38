-- ===== src/BPlusTree/Access/Descent.antt =====
-- The walks of update and lookup, from any node on the way to a record to its value node.
use fat_btree.Run.{Cmd, ok, Returns}
use fat_btree.Prelude.{
  ℕ, zero, suc, ◌+◌, ◌≤◌, ◌<◌, ◌≡◌, refl, ap, ◌∙◌, true, false, some, List, ◌∷◌, arith, get_elem?,
  All, All-cut,
}
use mathlib.Core.Path.{subst}
use fat_btree.Order.{Order}
use fat_btree.BPlusTree.Store.{Node, BPlusTree, inc32}
use fat_btree.BPlusTree.Overflow.{lower_bound}
use fat_btree.BPlusTree.Access.{walk, walk_counted}
use fat_btree.BPlusTree.Access.Choice.{choose}
use fat_btree.BPlusTree.Access.Leaf.{Located, Located-down, walk-down, height-down}
use fat_btree.BPlusTree.Access.Seen.{Seen, Seen-touched, touched}
use fat_btree.BPlusTree.Records.{get}
use fat_btree.BPlusTree.Tree.Leaves.{ats_of-append, count_in-append}
use fat_btree.BPlusTree.Stands.{whole, height, used_lt}
use fat_btree.BPlusTree.Tree.{
  Entry, Tree, leaf, inner, Trail, frame, addr, ats_of, entries, count_in, Token, IsValueAt,
}
use fat_btree.BPlusTree.Tree.Framing.{one_self, count-addr}
use fat_btree.BPlusTree.Access.InLeaf.{leaf_found}

module _ {K : Type 0} ⦃o : Order K⦄ where
  -- A walk down to a value node: it stops there, and takes a step elsewhere.
  pub record Descent (go : ℕ → K → ℕ → Cmd (BPlusTree K) ℕ) : Type 0 where
    pub next : ℕ → BPlusTree K → BPlusTree K
    pub next_seen : (s s' : BPlusTree K) (c : ℕ) → c < s.nb_node → Seen s s' → Seen s (next c s')
    pub stop :
        (fuel : ℕ) (k : K) (cur : ℕ) (s : BPlusTree K)
        → (s.pool cur).is_value ≡ true
        → go (suc fuel) k cur s ≡ ok cur s
    pub step :
        (fuel : ℕ) (k : K) (cur c : ℕ) (s : BPlusTree K)
        → (s.pool cur).is_value ≡ false
        → get_elem? (s.pool cur).child (lower_bound (s.pool cur).key k) ≡ some c
        → go (suc fuel) k cur s ≡ go fuel k c (next c s)

  pub walk_counted-Descent : Descent walk_counted
  unfolding walk_counted
  walk_counted-Descent = record {
    next = λ c s. touched c (record s { nb_access = inc32 s.nb_access });
    next_seen = λ s s' c used seen.
        Seen-touched s (record s' { nb_access = inc32 s'.nb_access }) c used
          (record {
            nodes = seen.nodes;
            levels = seen.levels;
            pools = seen.pools;
            fresh = seen.fresh;
          });
    stop = λ fuel k cur s e. rw e;
    step = λ fuel k cur c s e f. ground arith;
  }

  pub walk-Descent : Descent walk
  unfolding walk
  walk-Descent = record {
    next = touched;
    next_seen = Seen-touched;
    stop = λ fuel k cur s e. rw e;
    step = λ fuel k cur c s e f. ground arith;
  }

  -- The walk from a node on the way to a record ends at the value node of that record.
  module _ (go : ℕ → K → ℕ → Cmd (BPlusTree K) ℕ) (d : Descent go) (m n : ℕ) (s : BPlusTree K)
      (k : K) (e : Entry K) where
    pub record AtValue (a : ℕ) (s' : BPlusTree K) : Type 0 where
      pub at : a ≡ e.at
      pub seen : Seen s s'
      pub used : a < s.nb_node
      pub value : IsValueAt s.pool e

    walk_value :
        (fuel : ℕ) (es : List (Entry K)) (s' : BPlusTree K)
        → Seen s s'
        → e.at < s.nb_node
        → IsValueAt s.pool e
        → Returns AtValue (go (suc fuel) k e.at s')
    walk_value fuel es s' seen used v =
        rw (d.stop fuel k e.at s' (ap (λ (x : Node K). x.is_value) (seen.pools e.at) ∙ v.0))
          (record { at = refl; seen = seen; used = used; value = v })

    walk_step :
        (fuel : ℕ) (s' : BPlusTree K) (cur c : ℕ)
        → Seen s s'
        → (s.pool cur).is_value ≡ false
        → get_elem? (s.pool cur).child (lower_bound (s.pool cur).key k) ≡ some c
        → Returns AtValue (go fuel k c (d.next c s'))
        → Returns AtValue (go (suc fuel) k cur s')
    walk_step fuel s' cur c seen value found next =
        let same = seen.pools cur in
        rw
          (d.step fuel k cur c s' (ap (λ (x : Node K). x.is_value) same ∙ value)
            ((λ i. get_elem? ((same i).child) (lower_bound ((same i).key) k)) ∙ found))
          next

    pub walk_lem :
        (fuel : ℕ) (c : Trail K) (t : Tree K) (s' : BPlusTree K)
        → Located m n s k c t
        → Seen s s'
        → get k (entries (whole c t)) ≡ some e
        → height t + 1 ≤ fuel
        → Returns AtValue (go fuel k (addr t) s')
    walk_lem zero c t s' loc seen g h = absurd (omega arith)
    walk_lem (suc zero) c (leaf a es) s' loc seen g h = absurd (omega arith)
    walk_lem (suc (suc fuel)) c (leaf a es) s' loc seen g h =
        let f = leaf_found m n s k e c a es loc g in
        let cell = loc.stands.tree.0 in
        let value =
          (All-cut (IsValueAt s.pool) f.xs (e ∷ f.ys)
            (subst (All (IsValueAt s.pool)) f.parted loc.stands.tree.1)).1.0 in
        let inside : 0 < count_in e.at (ats_of es) = omega (
          arith,
          ap (count_in e.at) (ap ats_of f.parted ∙ ats_of-append f.xs (e ∷ f.ys)),
          count_in-append e.at (ats_of f.xs) (e.at ∷ ats_of f.ys),
          one_self e.at,
        ) in
        let used : e.at < s.nb_node =
          used_lt s.nb_node e.at _ (loc.stands.spare e.at) (omega arith) in
        walk_step (suc fuel) s' a e.at seen cell.value
          ((λ i. get_elem? (cell.child i) (lower_bound (cell.key i) k)) ∙ f.found)
          (walk_value fuel es (d.next e.at s') (d.next_seen s s' e.at used seen) used value)
    walk_lem (suc fuel) c (inner a u r) s' loc seen g h =
        let ch = choose u r k in
        let cell = loc.stands.tree.0 in
        let down = Located-down m n s k c a u r ch loc in
        let used : addr ch.child < s.nb_node =
          used_lt s.nb_node (addr ch.child) _ (down.stands.spare (addr ch.child))
            (omega (arith, count-addr ch.child)) in
        walk_step fuel s' a (addr ch.child) seen cell.value
          ((λ i. get_elem? (cell.child i) (lower_bound (cell.key i) k)) ∙ ch.found)
          (walk_lem fuel (frame a ch.lefts ch.rights c) ch.child (d.next (addr ch.child) s') down
            (d.next_seen s s' (addr ch.child) used seen)
            (ap (λ (l : List (Token K)). get k (entries l)) (walk-down m n s k c a u r ch) ∙ g)
            (omega (arith, height-down m n s k a u r ch)))
