-- ===== src/RdmaTree/Sample.antt =====
-- A tree of one record, in both pools: the root is a leaf, the node 1 has the fields.
use fat_btree.Prelude.{
  ℕ, ◌≤◌, refl, true, false, Bool-cases, inl, inr, List, [], ◌∷◌, arith, ◌==◌, if◌then◌else◌,
}
use fat_btree.Order.{Order}
use fat_btree.FieldTable.{FieldTable}
use fat_btree.FixedArray.{FixedArray, elems}
use fat_btree.BPlusTree.Store.{Node, BPlusTree}
use fat_btree.BPlusTree.Store
use fat_btree.BPlusTree.Access.Leaf.{Located}
use fat_btree.BPlusTree.Stands.{Stands}
use fat_btree.BPlusTree.Tree.{Entry, leaf, top}
use fat_btree.RdmaTree.Node.{RdmaTree, new_node, empty_tree}
use fat_btree.RdmaTree.Lookup.{Alike}

module _ {K F : Type 0} ⦃o : Order K⦄ (m : ℕ) (view : List F → FieldTable) (k : K) (f : F) where
  abbrev pub one_entry : Entry K
  one_entry = record { key = k; at = 1; val = view (f ∷ []) }

  abbrev pub one_record : BPlusTree K
  one_record = record Store.empty_tree {
    nb_node = 2;
    pool = λ a.
        if a == 0
        then record Store.new_node { key = k ∷ []; child = 1 ∷ [] }
        else if a == 1
        then record Store.new_node { is_leaf = false; is_value = true; val = view (f ∷ []) }
        else Store.new_node;
  }

  abbrev pub one_fixed : RdmaTree K F
  one_fixed = record (empty_tree (λ _. k) (λ _. f)) {
    nb_node = 2;
    pool = λ a.
        if a == 0
        then record (new_node (λ _. k) (λ _. f)) {
          key = record { size = 1; val = λ _. k };
          child = record { size = 1; val = λ _. 1 };
        }
        else if a == 1
        then record (new_node (λ _. k) (λ _. f)) {
          is_leaf = false;
          is_value = true;
          val = record { size = 1; val = λ _. f };
        }
        else new_node (λ _. k) (λ _. f);
  }

  pub one-Stands : (n : ℕ) → 1 ≤ n → Stands m n one_record top (leaf 0 (one_entry ∷ []))
  one-Stands n h = record {
    trail = refl;
    tree = (
      record { value = refl; leafy = refl; parent = refl; key = refl; child = refl },
      ((refl, refl), tt),
    );
    spare = λ x. ground arith;
    fresh = λ x h. ground arith;
    sorted = (tt, tt);
    tall = h;
    above_fit = tt;
    below_fit = tt;
  }

  pub one-Located : 2 ≤ m → Located m 1 one_record k top (leaf 0 (one_entry ∷ []))
  one-Located two = record {
    stands = one-Stands 1 (omega arith);
    fits = omega arith;
    under = tt;
    over = tt;
  }

  pub one-Alike :
      (P : FixedArray F → Type 0)
      → ((n : ℕ) → n ≤ 1 → P (record { size = n; val = λ _. f }))
      → 1 ≤ m
      → Alike m view P one_fixed.pool one_record
  unfolding elems
  one-Alike P good one a = elim (Bool-cases (a == 0)) [
    | inl p ↦ rw p (record {
      value = refl;
      leafy = refl;
      parent = refl;
      loaded = refl;
      key = refl;
      child = refl;
      room = one;
      fields = λ e. absurd (ground arith);
      sound = good 0 (omega arith);
    })
    | inr p ↦ elim (Bool-cases (a == 1)) [
      | inl q ↦
          rw (p, q)
            (record {
              value = refl;
              leafy = refl;
              parent = refl;
              loaded = refl;
              key = refl;
              child = refl;
              room = omega arith;
              fields = λ e. refl;
              sound = good 1 (omega arith);
            })
      | inr q ↦
          rw (p, q)
            (record {
              value = refl;
              leafy = refl;
              parent = refl;
              loaded = refl;
              key = refl;
              child = refl;
              room = omega arith;
              fields = λ e. absurd (ground arith);
              sound = good 0 (omega arith);
            })
    ]
  ]
