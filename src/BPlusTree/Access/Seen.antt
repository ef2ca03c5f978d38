-- ===== src/BPlusTree/Access/Seen.antt =====
-- Access counts, which update and lookup write on their way, and the invariant.
use fat_btree.Prelude.{
  ℕ, ◌≤◌, ◌<◌, ◌≡◌, refl, sym, ap, ◌∙◌, Bool, Option, none, List, [], ◌∷◌, arith, All,
}
use fat_btree.Order.{Order}
use fat_btree.BPlusTree.Store.{Node, BPlusTree, update, inc32}
use fat_btree.BPlusTree.Overflow.Climb.{Holds}
use fat_btree.BPlusTree.Tree.{
  Entry, Tree, leaf, inner, Rest, end, more, addr, Cell, IsValueAt, Rep, RepRest,
}

module _ {K : Type 0} where
  pub record Seen (s s' : BPlusTree K) : Type 0 where
    pub nodes : s'.nb_node ≡ s.nb_node
    pub levels : s'.depth ≡ s.depth
    pub pools : (x : ℕ) → s'.pool x ≡ record (s.pool x) { access_count = (s'.pool x).access_count }
    pub fresh : (x : ℕ) → s.nb_node ≤ x → s'.pool x ≡ s.pool x

  pub Seen-self : (s : BPlusTree K) → Seen s s
  Seen-self s = record { nodes = refl; levels = refl; pools = λ x. refl; fresh = λ x h. refl }

  -- ++c->access_count
  abbrev pub touched : ℕ → BPlusTree K → BPlusTree K
  touched c s = record s {
    pool = update s.pool c (record (s.pool c) { access_count = inc32 (s.pool c).access_count });
  }

  pub Seen-touched :
      (s s' : BPlusTree K) (c : ℕ) → c < s.nb_node → Seen s s' → Seen s (touched c s')
  unfolding update
  Seen-touched s s' c used seen = record {
    nodes = seen.nodes;
    levels = seen.levels;
    pools = λ x. ground (arith, seen.pools x);
    fresh = λ x h. ground (arith, seen.fresh x h);
  }

  module _ (h h' : ℕ → Node K)
      (same : (x : ℕ)
        → h' x
          ≡ record (h x) { access_count = (h' x).access_count; is_loaded = (h' x).is_loaded }) where
    Cell-seen : (p : Option ℕ) (t : Tree K) → Cell h p t → Cell h' p t
    Cell-seen p t c =
        let e = same (addr t) in
        record {
          value = ap (λ (n : Node K). n.is_value) e ∙ c.value;
          leafy = ap (λ (n : Node K). n.is_leaf) e ∙ c.leafy;
          parent = ap (λ (n : Node K). n.parent) e ∙ c.parent;
          key = ap (λ (n : Node K). n.key) e ∙ c.key;
          child = ap (λ (n : Node K). n.child) e ∙ c.child;
        }

    values-seen : (es : List (Entry K)) → All (IsValueAt h) es → All (IsValueAt h') es
    values-seen [] v = tt
    values-seen (e ∷ es) (v, vs) = (
      (
        ap (λ (n : Node K). n.is_value) (same e.at) ∙ v.0,
        ap (λ (n : Node K). n.val) (same e.at) ∙ v.1,
      ),
      values-seen es vs,
    )

    mutual
      pub Rep-seen : (t : Tree K) (p : Option ℕ) → Rep h p t → Rep h' p t
      Rep-seen (leaf a es) p (c, v) = (Cell-seen p (leaf a es) c, values-seen es v)
      Rep-seen (inner a t r) p (c, rt, rr) =
          (Cell-seen p (inner a t r) c, Rep-seen t _ rt, RepRest-seen r a rr)

      RepRest-seen : (r : Rest K) (a : ℕ) → RepRest h a r → RepRest h' a r
      RepRest-seen end a rr = tt
      RepRest-seen (more k t r) a (rt, rr) = (Rep-seen t _ rt, RepRest-seen r a rr)

-- The invariant is about neither access counts nor marks.
pub Holds-kept :
    {K : Type 0} ⦃o : Order K⦄ (m n : ℕ) (s s' : BPlusTree K) (t : Tree K)
    → s'.nb_node ≡ s.nb_node
    → ((x : ℕ)
        → s'.pool x ≡ record (s.pool x) {
          access_count = (s'.pool x).access_count;
          is_loaded = (s'.pool x).is_loaded;
        })
    → ((x : ℕ) → s.nb_node ≤ x → s'.pool x ≡ s.pool x)
    → Holds m n s t
    → Holds m n s' t
Holds-kept m n s s' t nodes pools fresh holds =
    let st = holds.stands in
    record {
      stands = record {
        trail = st.trail;
        tree = Rep-seen s.pool s'.pool pools t none st.tree;
        spare = λ x. rw nodes (st.spare x);
        fresh = λ x h. fresh x (omega (arith, nodes)) ∙ st.fresh x (omega (arith, nodes));
        sorted = st.sorted;
        tall = st.tall;
        above_fit = st.above_fit;
        below_fit = st.below_fit;
      };
      fits = holds.fits;
    }

pub Holds-Seen :
    {K : Type 0} ⦃o : Order K⦄ (m n : ℕ) (s s' : BPlusTree K) (t : Tree K)
    → Seen s s'
    → Holds m n s t
    → Holds m n s' t
Holds-Seen {K} m n s s' t seen holds =
    Holds-kept m n s s' t seen.nodes
      (λ x.
        seen.pools x
        ∙ ap
            (λ (b : Bool). record (s.pool x) {
              access_count = (s'.pool x).access_count;
              is_loaded = b;
            })
            (sym (ap (λ (n : Node K). n.is_loaded) (seen.pools x))))
      seen.fresh holds
