-- ===== src/BPlusTree/Tree/Framing.antt =====
-- What the pool holds of a tree, and changes of the pool elsewhere.
use fat_btree.Prelude.{
  ℕ, ◌+◌, ◌≤◌, ◌<◌, ◌≡◌, ◌≢◌, ◌∙◌, ap, Option, some, List, [], ◌∷◌, arith, ==_self, All,
}
use fat_btree.BPlusTree.Store.{Node}
use fat_btree.BPlusTree.Tree.{
  Entry, Tree, leaf, inner, Rest, end, more, Trail, top, frame, addr, ats_of, one, count_in, count,
  count_rest, Cell, IsValueAt, Rep, RepRest,
}
use fat_btree.BPlusTree.Tree.Zipper.{
  Lefts, left_count, trail_count, parent_of, FrameCell, RepLefts, RepTrail,
}

pub one_self : (a : ℕ) → one a a ≡ 1
one_self a = rw (==_self a)

pub ne_of_count : (f : ℕ → ℕ) (x a : ℕ) → f a ≡ 0 → 0 < f x → x ≢ a
ne_of_count f x a z p e = absurd (omega (arith, ap f e))

module _ {K : Type 0} where
  pub count-addr : (t : Tree K) → 0 < count (addr t) t
  count-addr (leaf a es) = omega (arith, one_self a)
  count-addr (inner a t r) = omega (arith, one_self a)

  module _ (h h' : ℕ → Node K) where
    pub Cell-same :
        (p : Option ℕ) (t : Tree K) → h' (addr t) ≡ h (addr t) → Cell h p t → Cell h' p t
    Cell-same p t e c = record {
      value = ap (λ (n : Node K). n.is_value) e ∙ c.value;
      leafy = ap (λ (n : Node K). n.is_leaf) e ∙ c.leafy;
      parent = ap (λ (n : Node K). n.parent) e ∙ c.parent;
      key = ap (λ (n : Node K). n.key) e ∙ c.key;
      child = ap (λ (n : Node K). n.child) e ∙ c.child;
    }

    -- A change of other fields, such as the parent, leaves a value node a value node.
    pub values-kept :
        (es : List (Entry K))
        → ((x : ℕ)
            → 0 < count_in x (ats_of es)
            → ((h' x).is_value ≡ (h x).is_value) × ((h' x).val ≡ (h x).val))
        → All (IsValueAt h) es
        → All (IsValueAt h') es
    values-kept [] same v = tt
    values-kept (e ∷ es) same (v, vs) =
        let s = same e.at (omega (arith, one_self e.at)) in
        ((s.0 ∙ v.0, s.1 ∙ v.1), values-kept es (λ x c. same x (omega arith)) vs)

    mutual
      pub Rep-same :
          (t : Tree K) (p : Option ℕ)
          → ((x : ℕ) → 0 < count x t → h' x ≡ h x)
          → Rep h p t
          → Rep h' p t
      Rep-same (leaf a es) p same (c, v) = (
        Cell-same p (leaf a es) (same a (count-addr (leaf a es))) c,
        values-kept es
            (λ x k.
              let e = same x (omega arith) in
              (ap (λ (n : Node K). n.is_value) e, ap (λ (n : Node K). n.val) e))
            v,
      )
      Rep-same (inner a t r) p same (c, rt, rr) = (
        Cell-same p (inner a t r) (same a (count-addr (inner a t r))) c,
        Rep-same t (some a) (λ x k. same x (omega arith)) rt,
        RepRest-same r a (λ x k. same x (omega arith)) rr,
      )

      pub RepRest-same :
          (r : Rest K) (a : ℕ)
          → ((x : ℕ) → 0 < count_rest x r → h' x ≡ h x)
          → RepRest h a r
          → RepRest h' a r
      RepRest-same end a same rr = tt
      RepRest-same (more k t r) a same (rt, rr) = (
        Rep-same t (some a) (λ x c. same x (omega arith)) rt,
        RepRest-same r a (λ x c. same x (omega arith)) rr,
      )

    pub RepLefts-same :
        (ls : Lefts K) (a : ℕ)
        → ((x : ℕ) → 0 < left_count x ls → h' x ≡ h x)
        → RepLefts h a ls
        → RepLefts h' a ls
    RepLefts-same [] a same rl = tt
    RepLefts-same ((u, k) ∷ ls) a same (ru, rl) = (
      Rep-same u (some a) (λ x c. same x (omega arith)) ru,
      RepLefts-same ls a (λ x c. same x (omega arith)) rl,
    )

    pub FrameCell-same :
        (p : Option ℕ) (a : ℕ) (ls : Lefts K) (f : ℕ) (r : Rest K)
        → h' a ≡ h a
        → FrameCell h p a ls f r
        → FrameCell h' p a ls f r
    FrameCell-same p a ls f r e c = record {
      value = ap (λ (n : Node K). n.is_value) e ∙ c.value;
      leafy = ap (λ (n : Node K). n.is_leaf) e ∙ c.leafy;
      parent = ap (λ (n : Node K). n.parent) e ∙ c.parent;
      key = ap (λ (n : Node K). n.key) e ∙ c.key;
      child = ap (λ (n : Node K). n.child) e ∙ c.child;
    }

    pub RepTrail-same :
        (c : Trail K) (f : ℕ)
        → ((x : ℕ) → 0 < trail_count x c → h' x ≡ h x)
        → RepTrail h c f
        → RepTrail h' c f
    RepTrail-same top f same e = e
    RepTrail-same (frame a ls r up) f same (c, rl, rr, above) = (
      FrameCell-same (parent_of up) a ls f r (same a (omega (arith, one_self a))) c,
      RepLefts-same ls a (λ x k. same x (omega arith)) rl,
      RepRest-same r a (λ x k. same x (omega arith)) rr,
      RepTrail-same up a (λ x k. same x (omega arith)) above,
    )

    Cell-moved :
        (t : Tree K) (p q : Option ℕ)
        → h' (addr t) ≡ record (h (addr t)) { parent = q }
        → Cell h p t
        → Cell h' q t
    Cell-moved t p q e c = record {
      value = ap (λ (n : Node K). n.is_value) e ∙ c.value;
      leafy = ap (λ (n : Node K). n.is_leaf) e ∙ c.leafy;
      parent = ap (λ (n : Node K). n.parent) e;
      key = ap (λ (n : Node K). n.key) e ∙ c.key;
      child = ap (λ (n : Node K). n.child) e ∙ c.child;
    }

    -- A tree whose root has got another parent.
    pub Rep-moved :
        (t : Tree K) (p q : Option ℕ)
        → count (addr t) t ≤ 1
        → h' (addr t) ≡ record (h (addr t)) { parent = q }
        → ((x : ℕ) → 0 < count x t → x ≢ addr t → h' x ≡ h x)
        → Rep h p t
        → Rep h' q t
    Rep-moved (leaf a es) p q once e same (c, v) = (
      Cell-moved (leaf a es) p q e c,
      values-kept es
          (λ x k.
            let ne = ne_of_count (λ y. count_in y (ats_of es)) x a (omega (arith, one_self a)) k in
            let s = same x (omega arith) ne in
            (ap (λ (n : Node K). n.is_value) s, ap (λ (n : Node K). n.val) s))
          v,
    )
    Rep-moved (inner a t r) p q once e same (c, rt, rr) =
        let none_here : count a t + count_rest a r ≡ 0 = omega (arith, one_self a) in
        (
          Cell-moved (inner a t r) p q e c,
          Rep-same t (some a)
              (λ x k. same x (omega arith) (ne_of_count (λ y. count y t) x a (omega arith) k)) rt,
          RepRest-same r a
              (λ x k. same x (omega arith) (ne_of_count (λ y. count_rest y r) x a (omega arith) k))
              rr,
        )
