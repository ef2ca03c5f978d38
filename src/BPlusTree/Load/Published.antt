-- ===== src/BPlusTree/Load/Published.antt =====
-- The nodes that are printed for the switch are marked, with their children.
use fat_btree.Prelude.{
  ℕ, ◌+◌, ◌/◌, ◌%◌, ◌^◌, ◌<◌, ◌≡◌, refl, sym, ap, subst, some, List, [], ◌∷◌, arith, All, Str,
}
use fat_btree.Run.{Returns, mono, bind}
use fat_btree.Order.{str_order}
use fat_btree.KeyIndex.{remove_key_index_prefix}
use fat_btree.BPlusTree.Load.{key_words, print_info, print_layer, print_layers, file_at}
use fat_btree.BPlusTree.Load.Marked.{
  Loaded, Marked, Marked-self, Marked-trans, Holds-Marked, mark_lem,
}
use fat_btree.BPlusTree.Overflow.Climb.{Holds}
use fat_btree.BPlusTree.Store.{Node, BPlusTree}
use fat_btree.BPlusTree.Tree.{Tree}

-- A key with a number behind the prefix.
abbrev pub Numbered : Str → Type 0
Numbered k = (w : ℕ) × (remove_key_index_prefix k ≡ some w)

key_words_lem : (ks : List Str) → All Numbered ks → (ws : List (ℕ × ℕ)) × (key_words ks ≡ some ws)
unfolding key_words
key_words_lem [] num = ([], refl)
key_words_lem (k ∷ ks) ((w, e), num) =
    let rest = key_words_lem ks num in
    ((w / 2 ^ 32 % 2 ^ 32, w % 2 ^ 32) ∷ rest.0, rw (e, rest.1) refl)

-- A node that has been taken, whose keys have numbers and whose children have been taken.
pub record Ready (s : BPlusTree Str) (n : ℕ) : Type 0 where
  pub used : n < s.nb_node
  pub keys : All Numbered (s.pool n).key
  pub childs : All (λ c. c < s.nb_node) (s.pool n).child

abbrev pub Published : BPlusTree Str → ℕ → Type 0
Published s n = Loaded s.pool n × All (Loaded s.pool) (s.pool n).child

pub All-map :
    {A : Type 0} (P Q : A → Type 0) (xs : List A) → ((x : A) → P x → Q x) → All P xs → All Q xs
All-map P Q [] f p = tt
All-map P Q (x ∷ xs) f (p, ps) = (f x p, All-map P Q xs f ps)

module _ (s s' : BPlusTree Str) (marked : Marked s s') where
  Same-child : (n : ℕ) → (s'.pool n).child ≡ (s.pool n).child
  Same-child n = ap (λ (x : Node Str). x.child) (marked.pools n)

  Ready-Marked : (n : ℕ) → Ready s n → Ready s' n
  Ready-Marked n r = record {
    used = omega (arith, marked.nodes, r.used);
    keys = subst (All Numbered) (sym (ap (λ (x : Node Str). x.key) (marked.pools n))) r.keys;
    childs = subst (All (λ c. c < s'.nb_node)) (sym (Same-child n)) (
        All-map (λ c. c < s.nb_node) (λ c. c < s'.nb_node) (s.pool n).child
          (λ c h. omega (arith, marked.nodes)) r.childs);
  }

  Published-Marked : (n : ℕ) → Published s n → Published s' n
  Published-Marked n (l, ls) = (
    marked.keeps n l,
    subst (All (Loaded s'.pool)) (sym (Same-child n))
        (All-map (Loaded s.pool) (Loaded s'.pool) (s.pool n).child marked.keeps ls),
  )

print_info_lem :
    (size mask file cur virtual_depth : ℕ) (keys : List Str) (childs : List ℕ) (s : BPlusTree Str)
    → All (λ c. c < s.nb_node) (cur ∷ childs)
    → All Numbered keys
    → Returns
        (λ _ s'. Marked s s' × All (Loaded s'.pool) (cur ∷ childs))
        (print_info size mask file cur virtual_depth keys childs s)
unfolding print_info
print_info_lem size mask file cur virtual_depth keys childs s used num =
    rw (key_words_lem keys num).1 (mark_lem (cur ∷ childs) s used)

print_layer_lem :
    (size mask file virtual_depth : ℕ) (ns : List ℕ) (s : BPlusTree Str)
    → All (Ready s) ns
    → Returns
        (λ _ s'. Marked s s' × All (Published s') ns)
        (print_layer size mask file virtual_depth ns s)
unfolding print_layer
print_layer_lem size mask file virtual_depth [] s ready = (Marked-self s, tt)
print_layer_lem size mask file virtual_depth (n ∷ ns) s (r, ready) =
    bind (λ _ s'. Marked s s' × All (Loaded s'.pool) (n ∷ (s.pool n).child))
      (λ _ s'. Marked s s' × All (Published s') (n ∷ ns))
      (print_info size mask file n virtual_depth (s.pool n).key (s.pool n).child s) _
      (print_info_lem size mask file n virtual_depth (s.pool n).key (s.pool n).child s
        (r.used, r.childs) r.keys)
      λ _ s1 (m1, (l, ls)).
        bind (λ _ s'. Marked s1 s' × All (Published s') ns)
          (λ _ s'. Marked s s' × All (Published s') (n ∷ ns))
          (print_layer size mask file virtual_depth ns s1) _
          (print_layer_lem size mask file virtual_depth ns s1
            (All-map (Ready s) (Ready s1) ns (Ready-Marked s s1 m1) ready))
          λ _ s2 (m2, ps). (
            Marked-trans s s1 s2 m1 m2,
            (
              Published-Marked s1 s2 m2 n
                  (l, subst (All (Loaded s1.pool)) (sym (Same-child s s1 m1 n)) ls),
              ps,
            ),
          )

print_layers-Marked :
    (size mask nb_files file k : ℕ) (layers : List (List ℕ)) (s : BPlusTree Str)
    → All (All (Ready s)) layers
    → Returns
        (λ _ s'. Marked s s' × All (All (Published s')) layers)
        (print_layers size mask nb_files file k layers s)
unfolding print_layers
print_layers-Marked size mask nb_files file k [] s ready = (Marked-self s, tt)
print_layers-Marked size mask nb_files file k (ns ∷ layers) s (r, ready) =
    bind (λ _ s'. Marked s s' × All (Published s') ns)
      (λ _ s'. Marked s s' × All (All (Published s')) (ns ∷ layers))
      (print_layer size mask (file_at nb_files file k) (k + 1) ns s) _
      (print_layer_lem size mask (file_at nb_files file k) (k + 1) ns s r)
      λ _ s1 (m1, ps).
        bind (λ _ s'. Marked s1 s' × All (All (Published s')) layers)
          (λ _ s'. Marked s s' × All (All (Published s')) (ns ∷ layers))
          (print_layers size mask nb_files (file_at nb_files file k) (k + 1) layers s1) _
          (print_layers-Marked size mask nb_files (file_at nb_files file k) (k + 1) layers s1 (
            All-map (All (Ready s)) (All (Ready s1)) layers
              (λ l. All-map (Ready s) (Ready s1) l (Ready-Marked s s1 m1)) ready))
          λ _ s2 (m2, qs). (
            Marked-trans s s1 s2 m1 m2,
            (All-map (Published s1) (Published s2) ns (Published-Marked s1 s2 m2) ps, qs),
          )

pub print_layers_lem :
    (m n size mask nb_files file k : ℕ) (layers : List (List ℕ)) (s : BPlusTree Str) (t : Tree Str)
    → Holds m n s t
    → All (All (Ready s)) layers
    → Returns
        (λ _ s'. Holds m n s' t × All (All (Published s')) layers)
        (print_layers size mask nb_files file k layers s)
print_layers_lem m n size mask nb_files file k layers s t holds ready =
    mono (λ _ s'. Marked s s' × All (All (Published s')) layers) _
      (print_layers size mask nb_files file k layers s)
      (print_layers-Marked size mask nb_files file k layers s ready)
      λ _ s' (marked, ps). (Holds-Marked m n s s' t marked holds, ps)
