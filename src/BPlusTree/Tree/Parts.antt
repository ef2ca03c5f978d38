-- ===== src/BPlusTree/Tree/Parts.antt =====
-- A node's children cut in two, and set_parents on the children of a part.
use fat_btree.Prelude.{
  ℕ, zero, suc, ◌+◌, ◌≤◌, ◌<◌, ◌≡◌, ◌≢◌, refl, sym, ap, ◌∙◌, some, List, [], ◌∷◌, ◌++◌,
  append_assoc, arith, length,
}
use fat_btree.BPlusTree.Store.{Node, update, set_parents}
use fat_btree.BPlusTree.Tree.{
  Tree, leaf, inner, Rest, end, more, Token, sep, addr, seps, addrs, flat, flat_rest, one, count_in,
  count, count_rest, RepRest, FitsRest,
}
use fat_btree.BPlusTree.Tree.Framing.{one_self, count-addr, Rep-moved}

pub one_ne : (x a : ℕ) → x ≢ a → one x a ≡ 0
one_ne x a ne = ground arith

module _ {K : Type 0} where
  infixr 67 ◌+++◌
  abbrev pub ◌+++◌ : Rest K → Rest K → Rest K
  end +++ s = s
  more k t r +++ s = more k t (r +++ s)

  pub seps-append : (r s : Rest K) → seps (r +++ s) ≡ seps r ++ seps s
  seps-append end s = refl
  seps-append (more k t r) s = ap (λ (l : List K). k ∷ l) (seps-append r s)

  pub addrs-append : (r s : Rest K) → addrs (r +++ s) ≡ addrs r ++ addrs s
  addrs-append end s = refl
  addrs-append (more k t r) s = ap (λ (l : List ℕ). addr t ∷ l) (addrs-append r s)

  pub flat_rest-append : (r s : Rest K) → flat_rest (r +++ s) ≡ flat_rest r ++ flat_rest s
  flat_rest-append end s = refl
  flat_rest-append (more k t r) s =
      ap (λ (l : List (Token K)). sep k ∷ (flat t ++ l)) (flat_rest-append r s)
      ∙ ap (λ (l : List (Token K)). sep k ∷ l)
          (sym (append_assoc (flat t) (flat_rest r) (flat_rest s)))

  pub count_rest-append :
      (x : ℕ) (r s : Rest K) → count_rest x (r +++ s) ≡ count_rest x r + count_rest x s
  count_rest-append x end s = omega arith
  count_rest-append x (more k t r) s = omega (arith, count_rest-append x r s)

  pub RepRest-cut :
      (h : ℕ → Node K) (a : ℕ) (r s : Rest K)
      → RepRest h a (r +++ s)
      → RepRest h a r × RepRest h a s
  RepRest-cut h a end s p = (tt, p)
  RepRest-cut h a (more k t r) s (rt, p) = let q = RepRest-cut h a r s p in ((rt, q.0), q.1)

  pub FitsRest-cut : (m : ℕ) (r s : Rest K) → FitsRest m (r +++ s) → FitsRest m r × FitsRest m s
  FitsRest-cut m end s p = (tt, p)
  FitsRest-cut m (more k t r) s (ft, p) = let q = FitsRest-cut m r s p in ((ft, q.0), q.1)

  -- A node's children cut at the separator number `i`.
  pub record RestCut (r : Rest K) (i : ℕ) : Type 0 where
    pub front : Rest K
    pub new_key : K
    pub middle : Tree K
    pub back : Rest K
    pub whole : r ≡ front +++ more new_key middle back
    pub place : length (seps front) ≡ i

  pub rest_cut : (r : Rest K) (i : ℕ) → i < length (seps r) → RestCut r i
  rest_cut end i h = absurd (omega arith)
  rest_cut (more k t r) zero h = record {
    front = end;
    new_key = k;
    middle = t;
    back = r;
    whole = refl;
    place = refl;
  }
  rest_cut (more k t r) (suc i) h =
      let c = rest_cut r i (omega arith) in
      record {
        front = more k t c.front;
        new_key = c.new_key;
        middle = c.middle;
        back = c.back;
        whole = ap (λ (s : Rest K). more k t s) c.whole;
        place = ap suc c.place;
      }

  pub set_parents-out :
      (cs : List ℕ) (p : ℕ) (h : ℕ → Node K) (x : ℕ)
      → count_in x cs ≡ 0
      → set_parents cs p h x ≡ h x
  unfolding set_parents update
  set_parents-out [] p h x z = refl
  set_parents-out (c ∷ cs) p h x z =
      ground (arith, set_parents-out cs p (update h c (record (h c) { parent = some p })) x)

  pub set_parents-in :
      (cs : List ℕ) (p : ℕ) (h : ℕ → Node K) (x : ℕ)
      → 0 < count_in x cs
      → set_parents cs p h x ≡ record (h x) { parent = some p }
  unfolding set_parents update
  set_parents-in [] p h x z = absurd (omega arith)
  set_parents-in (c ∷ cs) p h x z = ground (
    arith,
    set_parents-out cs p (update h c (record (h c) { parent = some p })) x,
    set_parents-in cs p (update h c (record (h c) { parent = some p })) x,
  )

  pub set_parents-kept :
      (cs : List ℕ) (p : ℕ) (h : ℕ → Node K) (x : ℕ)
      → ((set_parents cs p h x).is_value ≡ (h x).is_value)
        × ((set_parents cs p h x).val ≡ (h x).val)
  unfolding set_parents update
  set_parents-kept [] p h x = (refl, refl)
  set_parents-kept (c ∷ cs) p h x =
      ground (arith, set_parents-kept cs p (update h c (record (h c) { parent = some p })) x)

  pub one-le-count : (x : ℕ) (t : Tree K) → one x (addr t) ≤ count x t
  one-le-count x (leaf a es) = omega arith
  one-le-count x (inner a t r) = omega arith

  pub count_in-addrs : (x : ℕ) (r : Rest K) → count_in x (addrs r) ≤ count_rest x r
  count_in-addrs x end = omega arith
  count_in-addrs x (more k t r) = omega (arith, one-le-count x t, count_in-addrs x r)

  -- The children of a part whose parent pointers, and nothing else of them, have changed to `b`.
  module _ (h h' : ℕ → Node K) (a b : ℕ) where
    abbrev pub Adopted : Rest K → Type 0
    Adopted r =
        (x : ℕ)
        → 0 < count_rest x r
        → (0 < count_in x (addrs r) → h' x ≡ record (h x) { parent = some b })
          × (count_in x (addrs r) ≡ 0 → h' x ≡ h x)

    Adopted-tail :
        (k : K) (t : Tree K) (r : Rest K)
        → ((x : ℕ) → count x t + count_rest x r ≤ 1)
        → Adopted (more k t r)
        → Adopted r
    Adopted-tail k t r apart ad x z =
        let out : one x (addr t) ≡ 0 = omega (arith, apart x, one-le-count x t) in
        let q = ad x (omega arith) in ((λ p. q.0 (omega arith)), λ p. q.1 (omega arith))

    pub RepRest-Adopted :
        (r : Rest K) → ((x : ℕ) → count_rest x r ≤ 1) → Adopted r → RepRest h a r → RepRest h' b r
    RepRest-Adopted end apart ad rr = tt
    RepRest-Adopted (more k t r) apart ad (rt, rr) = (
      Rep-moved h h' t (some a) (some b) (omega (arith, apart (addr t)))
          ((ad (addr t) (omega (arith, count-addr t))).0 (omega (arith, one_self (addr t))))
          (λ x z ne.
            (ad x (omega arith)).1
              (omega (arith, one_ne x (addr t) ne, count_in-addrs x r, apart x)))
          rt,
      RepRest-Adopted r (λ x. omega (arith, apart x)) (Adopted-tail k t r apart ad) rr,
    )
