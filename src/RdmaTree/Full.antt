-- ===== src/RdmaTree/Full.antt =====
-- A split below a node that has as many children as its array has cells.
use fat_btree.Run.{Run, ok, fault, out_of_fuel, and_then, need}
use fat_btree.Prelude.{
  ℕ, suc, ◌+◌, ◌-◌, ◌/◌, ◌≤◌, ◌≡◌, ◌≢◌, refl, true, false, Bool-cases, Option-cases, inl, inr,
  Option, none, some, arith, ltb, leb, ==_self, ==_different,
}
use fat_btree.Order.{Order}
use fat_btree.FixedArray.{to_vector, insert_one, insert_range, erase}
use fat_btree.BPlusTree.Overflow.{lower_bound}
use fat_btree.RdmaTree.Node.{RdmaTree, update, max_node_size}
use fat_btree.RdmaTree.Overflow.{movable, move_upper, link, split_leaf, split, overflow}

-- A run that ends with a result for which `P` holds, or with a fault.
abbrev Partly : {S A : Type 0} → (A → S → Type 0) → Run S A → Type 0
Partly P (ok a s) = P a s
Partly P fault = Unit
Partly P out_of_fuel = ⊥

module _ {S A B : Type 0} where
  fails_then :
      (P : A → S → Type 0) (r : Run S A) (k : A → S → Run S B)
      → Partly P r
      → ((a : A) (s : S) → P a s → k a s ≡ fault)
      → and_then r k ≡ fault
  fails_then P (ok a s) k p f = f a s p
  fails_then P fault k p f = refl
  fails_then P out_of_fuel k p f = absurd p

  fails_need :
      (o : Option A) (s : S) (k : A → S → Run S B)
      → ((a : A) → k a s ≡ fault)
      → and_then (need o s) k ≡ fault
  fails_need none s k f = refl
  fails_need (some a) s k f = f a

module _ {K F : Type 0} ⦃o : Order K⦄ (m : ℕ) (cur p : ℕ) (apart : p ≢ cur) where
  -- The parent has no room.
  abbrev Tight : RdmaTree K F → Type 0
  Tight s = ((s.pool p).child.size ≡ m) × ((s.pool cur).parent ≡ some p)

  link-full :
      (s : RdmaTree K F) (probe key : K) (fresh : ℕ) → Tight s → link m p probe key fresh s ≡ fault
  unfolding link insert_one update
  link-full s probe key fresh t =
      let i = lower_bound (to_vector (s.pool p).key) probe in
      fails_need (insert_one m i key (s.pool p).key) s _ λ keys. ground (arith, t.0)

  move-Tight :
      (s : RdmaTree K F) (fresh first cut child_cut : ℕ)
      → p ≢ fresh
      → cur ≢ fresh
      → Tight s
      → Partly (λ _ s'. Tight s') (move_upper m cur fresh first cut child_cut s)
  unfolding move_upper update
  move-Tight s fresh first cut child_cut pf cf t =
      let a = ==_different p cur apart in
      let b = ==_different p fresh pf in
      let c = ==_different cur fresh cf in
      let d = ==_self cur in
      let n = s.pool cur in
      let r = s.pool fresh in
      elim (Option-cases (insert_range m 0 n.key.val first n.key.size r.key)) [
        | inl q ↦ rw q tt
        | inr (keys, q1) ↦ elim (Option-cases (erase m cut n.key.size n.key)) [
          | inl q ↦ rw (q1, q) tt
          | inr (left, q2) ↦
              elim (Option-cases (insert_range m 0 n.child.val child_cut n.child.size r.child)) [
                | inl q ↦ rw (q1, q2, q) tt
                | inr (childs, q3) ↦ elim (Option-cases (erase m child_cut n.child.size n.child)) [
                  | inl q ↦ rw (q1, q2, q3, q) tt
                  | inr (left_childs, q4) ↦ rw (q1, q2, q3, q4, a, b, c, d) t
                ]
              ]
        ]
      ]

  split_leaf-full :
      (s : RdmaTree K F) (fresh : ℕ)
      → p ≢ fresh
      → cur ≢ fresh
      → Tight s
      → split_leaf m cur fresh s ≡ fault
  unfolding split_leaf
  split_leaf-full s fresh pf cf t =
      fails_then (λ _ s'. Tight s') (move_upper m cur fresh (m / 2) (m / 2) (m / 2) s) _
        (move-Tight s fresh (m / 2) (m / 2) (m / 2) pf cf t)
        λ _ s' t'. rw (t'.1) (
          link-full s' ((s'.pool fresh).key.val 0)
            ((s'.pool cur).key.val ((s'.pool cur).key.size - 1)) fresh t')

  split-full :
      (s : RdmaTree K F)
      → p ≢ s.nb_node
      → cur ≢ s.nb_node
      → (s.pool cur).is_leaf ≡ true
      → Tight s
      → split m cur s ≡ fault
  unfolding split update
  split-full s pf cf leaf t =
      let a = ==_different p s.nb_node pf in
      let c = ==_different cur s.nb_node cf in
      elim (Bool-cases (ltb s.nb_node max_node_size)) [
        | inl q ↦
            let s' : RdmaTree K F = record s {
              nb_node = s.nb_node + 1;
              pool =
                  update s.pool s.nb_node
                    (record (s.pool s.nb_node) { parent = (s.pool cur).parent; is_leaf = true });
            } in
            let t' : Tight s' = rw (a, c) t in rw (q, leaf) (split_leaf-full s' s.nb_node pf cf t')
        | inr q ↦ rw q refl
      ]

  -- overflow of a leaf with M keys, neither root nor loaded, writes past the children of its parent when the
  -- parent has M of them, as it does with M - 1 separators, the most that overflow leaves.
  pub overflow-full :
      (fuel : ℕ) (s : RdmaTree K F)
      → m ≤ (s.pool cur).key.size
      → cur ≢ 0
      → (s.pool cur).is_loaded ≡ false
      → (s.pool cur).is_leaf ≡ true
      → (s.pool cur).parent ≡ some p
      → (s.pool p).child.size ≡ m
      → p ≢ s.nb_node
      → cur ≢ s.nb_node
      → overflow m (suc fuel) cur s ≡ fault
  unfolding overflow movable
  overflow-full fuel s many inner stays leaf parent full pf cf =
      let a : leb m (s.pool cur).key.size ≡ true = ground arith in
      let b = ==_different cur 0 inner in
      let f = split-full s pf cf leaf (full, parent) in rw (a, b, stays, f) refl
