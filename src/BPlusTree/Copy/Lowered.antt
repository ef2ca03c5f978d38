-- ===== src/BPlusTree/Copy/Lowered.antt =====
-- A tree whose root has been copied down: the root keeps its address and has the copy as its only
-- child.
use fat_btree.Prelude.{ℕ, ◌+◌, ◌≤◌, ◌<◌, ◌≡◌, refl, ap, ◌∙◌, false, Option, some, List, arith, All}
use mathlib.Core.Path.{subst}
use fat_btree.BPlusTree.Store.{Node, new_node}
use fat_btree.BPlusTree.Tree.{
  Entry, Tree, leaf, inner, Rest, addr, ats_of, node_keys, node_childs, flat, one, count_in, count,
  count_rest, Cell, IsValueAt, Rep, RepRest,
}
use fat_btree.BPlusTree.Tree.Framing.{one_self, count-addr, values-kept, Rep-moved}
use fat_btree.BPlusTree.Tree.Parts.{one_ne, one-le-count, count_in-addrs, RepRest-Adopted}
use fat_btree.BPlusTree.Stands.{FitsBelow, height}

module _ {K : Type 0} where
  abbrev pub relabel : ℕ → Tree K → Tree K
  relabel b (leaf a es) = leaf b es
  relabel b (inner a t r) = inner b t r

  -- Of an address in use: it is a value node's, or a child's, or below a child.
  pub below_count : ℕ → Tree K → ℕ
  below_count x (leaf a es) = count_in x (ats_of es)
  below_count x (inner a t r) = count x t + count_rest x r

  pub count-below : (x : ℕ) (t : Tree K) → count x t ≡ one x (addr t) + below_count x t
  unfolding below_count
  count-below x (leaf a es) = refl
  count-below x (inner a t r) = omega arith

  pub count-relabel : (x b : ℕ) (t : Tree K) → count x (relabel b t) ≡ one x b + below_count x t
  unfolding below_count
  count-relabel x b (leaf a es) = refl
  count-relabel x b (inner a t r) = omega arith

  pub childs_le : (x : ℕ) (t : Tree K) → count_in x (node_childs t) ≤ below_count x t
  unfolding below_count
  childs_le x (leaf a es) = omega arith
  childs_le x (inner a t r) = omega (arith, one-le-count x t, count_in-addrs x r)

  pub flat-relabel : (b : ℕ) (t : Tree K) → flat (relabel b t) ≡ flat t
  flat-relabel b (leaf a es) = refl
  flat-relabel b (inner a t r) = refl

  pub height-relabel : (b : ℕ) (t : Tree K) → height (relabel b t) ≡ height t
  height-relabel b (leaf a es) = refl
  height-relabel b (inner a t r) = refl

  pub keys-relabel : (b : ℕ) (t : Tree K) → node_keys (relabel b t) ≡ node_keys t
  keys-relabel b (leaf a es) = refl
  keys-relabel b (inner a t r) = refl

  pub addr-relabel : (b : ℕ) (t : Tree K) → addr (relabel b t) ≡ b
  addr-relabel b (leaf a es) = refl
  addr-relabel b (inner a t r) = refl

  pub FitsBelow-relabel : (m b : ℕ) (t : Tree K) → FitsBelow m t → FitsBelow m (relabel b t)
  FitsBelow-relabel m b (leaf a es) f = f
  FitsBelow-relabel m b (inner a t r) f = f

  -- Every node below the root has been left alone, but for the parents of the children.
  module _ (h h' : ℕ → Node K) (cur b : ℕ) where
    abbrev pub Handed : Tree K → Type 0
    Handed t =
        (x : ℕ)
        → 0 < below_count x t
        → (0 < count_in x (node_childs t) → h' x ≡ record (h x) { parent = some b })
          × (count_in x (node_childs t) ≡ 0 → h' x ≡ h x)

    Handed-values :
        (es : List (Entry K)) → Handed (leaf cur es) → All (IsValueAt h) es → All (IsValueAt h') es
    unfolding below_count
    Handed-values es hd = values-kept h h' es λ x p.
        let e = (hd x p).0 p in (ap (λ (v : Node K). v.is_value) e, ap (λ (v : Node K). v.val) e)

    Handed-kids :
        (t : Tree K) (r : Rest K)
        → ((x : ℕ) → count x t + count_rest x r ≤ 1)
        → Handed (inner cur t r)
        → Rep h (some cur) t
        → RepRest h cur r
        → Rep h' (some b) t × RepRest h' b r
    unfolding below_count
    Handed-kids t r apart hd rt rr = (
      Rep-moved h h' t (some cur) (some b) (omega (arith, apart (addr t)))
          ((hd (addr t) (omega (arith, count-addr t))).0 (omega (arith, one_self (addr t))))
          (λ x p ne.
            (hd x (omega arith)).1
              (omega (arith, one_ne x (addr t) ne, count_in-addrs x r, apart x)))
          rt,
      RepRest-Adopted h h' cur b r (λ x. omega (arith, apart x))
          (λ x p.
            let out : one x (addr t) ≡ 0 = omega (arith, apart x, one-le-count x t) in
            let q = hd x (omega arith) in ((λ z. q.0 (omega arith)), λ z. q.1 (omega arith)))
          rr,
    )

    pub below_after :
        (t : Tree K) (p : Option ℕ)
        → addr t ≡ cur
        → ((x : ℕ) → below_count x t ≤ 1)
        → Handed t
        → Rep h p t
        → Cell h' (some cur) (relabel b t)
        → Rep h' (some cur) (relabel b t)
    unfolding below_count
    below_after (leaf a es) p e apart hd rt c = (c, Handed-values es (λ x. hd x) rt.1)
    below_after (inner a t r) p e apart hd rt c =
        let kids =
          Handed-kids t r apart (λ x. hd x) (subst (λ (w : ℕ). Rep h (some w) t) e rt.1)
            (subst (λ (w : ℕ). RepRest h w r) e rt.2) in
        (c, kids.0, kids.1)

  pub Rep-Cell : (h : ℕ → Node K) (p : Option ℕ) (t : Tree K) → Rep h p t → Cell h p t
  Rep-Cell h p (leaf a es) rt = rt.0
  Rep-Cell h p (inner a t r) rt = rt.0

  -- The copy's own fields.
  pub Cell-copied :
      (h h' : ℕ → Node K) (p : Option ℕ) (t : Tree K) (b : ℕ)
      → Cell h p t
      → h b ≡ new_node
      → h' b ≡ record (h b) {
        is_leaf = (h (addr t)).is_leaf;
        parent = some (addr t);
        key = (h (addr t)).key;
        child = (h (addr t)).child;
        is_loaded = false;
      }
      → Cell h' (some (addr t)) (relabel b t)
  Cell-copied h h' p (leaf a es) b c blank e = record {
    value = ap (λ (n : Node K). n.is_value) e ∙ ap (λ (n : Node K). n.is_value) blank;
    leafy = ap (λ (n : Node K). n.is_leaf) e ∙ c.leafy;
    parent = ap (λ (n : Node K). n.parent) e;
    key = ap (λ (n : Node K). n.key) e ∙ c.key;
    child = ap (λ (n : Node K). n.child) e ∙ c.child;
  }
  Cell-copied h h' p (inner a t r) b c blank e = record {
    value = ap (λ (n : Node K). n.is_value) e ∙ ap (λ (n : Node K). n.is_value) blank;
    leafy = ap (λ (n : Node K). n.is_leaf) e ∙ c.leafy;
    parent = ap (λ (n : Node K). n.parent) e;
    key = ap (λ (n : Node K). n.key) e ∙ c.key;
    child = ap (λ (n : Node K). n.child) e ∙ c.child;
  }
