-- ===== src/BPlusTree/Load/Marked.antt =====
-- What print_info does to the tree: it sets marks, and nothing else.
use fat_btree.Prelude.{ℕ, ◌≤◌, ◌<◌, ◌≡◌, refl, sym, ap, ◌∙◌, true, List, [], ◌∷◌, arith, All, Str}
use fat_btree.Order.{str_order}
use fat_btree.BPlusTree.Access.Seen.{Holds-kept}
use fat_btree.BPlusTree.Load.{Pool, mark}
use fat_btree.BPlusTree.Overflow.Climb.{Holds}
use fat_btree.BPlusTree.Store.{Node, BPlusTree, update}
use fat_btree.BPlusTree.Tree.{Tree}

abbrev pub Loaded : Pool → ℕ → Type 0
Loaded pool c = (pool c).is_loaded ≡ true

pub record Marked (s s' : BPlusTree Str) : Type 0 where
  pub nodes : s'.nb_node ≡ s.nb_node
  pub levels : s'.depth ≡ s.depth
  pub pools : (x : ℕ) → s'.pool x ≡ record (s.pool x) { is_loaded = (s'.pool x).is_loaded }
  pub fresh : (x : ℕ) → s.nb_node ≤ x → s'.pool x ≡ s.pool x
  pub keeps : (x : ℕ) → Loaded s.pool x → Loaded s'.pool x

pub Marked-self : (s : BPlusTree Str) → Marked s s
Marked-self s = record {
  nodes = refl;
  levels = refl;
  pools = λ x. refl;
  fresh = λ x h. refl;
  keeps = λ x l. l;
}

pub Marked-trans : (s s' s2 : BPlusTree Str) → Marked s s' → Marked s' s2 → Marked s s2
Marked-trans s s' s2 a b = record {
  nodes = b.nodes ∙ a.nodes;
  levels = b.levels ∙ a.levels;
  pools = λ x.
      b.pools x ∙ ap (λ (n : Node Str). record n { is_loaded = (s2.pool x).is_loaded }) (a.pools x);
  fresh = λ x h. b.fresh x (omega (arith, a.nodes)) ∙ a.fresh x h;
  keeps = λ x l. b.keeps x (a.keeps x l);
}

pub Holds-Marked :
    (m n : ℕ) (s s' : BPlusTree Str) (t : Tree Str) → Marked s s' → Holds m n s t → Holds m n s' t
Holds-Marked m n s s' t marked holds =
    Holds-kept m n s s' t marked.nodes
      (λ x.
        marked.pools x
        ∙ ap (λ (a : ℕ). record (s.pool x) { access_count = a; is_loaded = (s'.pool x).is_loaded })
            (sym (ap (λ (n : Node Str). n.access_count) (marked.pools x))))
      marked.fresh holds

-- A mark on one node that has been taken.
Marked-one :
    (s : BPlusTree Str) (c : ℕ)
    → c < s.nb_node
    → Marked s (record s { pool = update s.pool c (record (s.pool c) { is_loaded = true }) })
unfolding update
Marked-one s c used = record {
  nodes = refl;
  levels = refl;
  pools = λ x. ground arith;
  fresh = λ x h. ground arith;
  keeps = λ x l. ground arith;
}

Loaded-one : (pool : Pool) (c : ℕ) → Loaded (update pool c (record (pool c) { is_loaded = true })) c
unfolding update
Loaded-one pool c = ground arith

pub mark_lem :
    (cs : List ℕ) (s : BPlusTree Str)
    → All (λ c. c < s.nb_node) cs
    → Marked s (record s { pool = mark cs s.pool }) × All (Loaded (mark cs s.pool)) cs
unfolding mark
mark_lem [] s used = (Marked-self s, tt)
mark_lem (c ∷ cs) s (u, used) =
    let s1 : BPlusTree Str = record s {
      pool = update s.pool c (record (s.pool c) { is_loaded = true });
    } in
    let rest = mark_lem cs s1 used in
    (
      Marked-trans s s1 (record s1 { pool = mark cs s1.pool }) (Marked-one s c u) rest.0,
      (rest.0.keeps c (Loaded-one s.pool c), rest.1),
    )
