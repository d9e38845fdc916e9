-- ===== src/Trees/Merge/Apart.antt =====
-- A directory that both sides have changed, where no node is sharded.
use reflake.Prelude.{
  Str, ℕ, suc, List, [], ◌∷◌, ◌++◌, Option, none, some, true, false, ◌≡◌, refl, sym, ap, subst, ◌∙◌,
  inl, inr, In, any, list_eq, nat_eq, option_eq, arith,
}
use reflake.Prelude.Dict.{Dict, get, keys}
use reflake.Domain.{ok}
use reflake.Exec.{Exec, pure, ◌>>=◌}
use reflake.Exec.Yields.{Yields, bind-Yields, pure-Yields, elim-Yields}
use reflake.Trees.Entry.{Entry}
use reflake.Trees.Node.{Nodes, is_valid_from, load_entries, by_name}
use reflake.Trees.Lookup.{is_shard}
use reflake.Trees.Writer.{Writer, build_children}
use reflake.Trees.Writer.Stored.{Extends, IsKnown, Consistent, IsInjective}
use reflake.Trees.Writer.Build.{IsPlain, IsSorted, build_children-stored}
use reflake.Trees.Merge.{
  Directory, all_shards, same_ranges, load, children_by_name, base_by_name, merge_names,
  build_merged, merge_loaded, merge_sharded, merge_children,
}
use reflake.Trees.Merge.Names.{find, get-by_name, sorted_set-IsAscending}
use reflake.Trees.Merge.View.{below, view, IsMerged}
use reflake.Trees.Merge.Growth.{AllMonotone, merge_names-IsMonotone, build_merged-IsMonotone}
use reflake.Trees.Merge.Child.{IsSound, view-none, view-empty, below-none}
use reflake.Trees.Merge.Loop.{IsPlain-Extends, merge_names_sound}
use reflake.Trees.Merge.Union.{IsMerged-cong, names, merged_at, by_name-IsNamed, names-flat}
use reflake.Trees.Merge.Read.{
  IsNode, load_entries-IsNode, children_by_name-Yields, base_by_name-Yields, view-node,
}

all_shards-plain : (es : List Entry) → all_shards es ≡ true → any is_shard es ≡ false → es ≡ []
unfolding all_shards
all_shards-plain [] h p = refl
all_shards-plain (e ∷ es) h p = absurd (ground arith)

pub load-Yields :
    (h : Str) (w : Writer) (o : Option (List Entry)) (w' : Writer)
    → Yields (load h) w o w'
    → (load_entries w.nodes h ≡ ok o) × (w ≡ w')
unfolding load
load-Yields h w o w' y = (ap (λ x. x.0) y, ap (λ x. x.1) y)

module _ (node_hash : List Entry → Str) (inj : IsInjective node_hash) (smaller : ℕ) where
  module _ (directory : Directory) where
    -- Without shards, the merge of shards applies to equal trees only.
    quiet :
        {m : Option (Option Str)} {w w' : Writer} → (none ≡ m) × (w ≡ w') → (m ≡ none) × (w ≡ w')
    quiet (a, b) = (sym a, b)

    loaded-plain :
        (p ours theirs : Str) (b o t : Option (List Entry)) (w : Writer) (m : Option (Option Str))
        (w' : Writer)
        → (ours ≡ theirs → ⊥)
        → Consistent node_hash w.nodes
        → IsPlain w.nodes
        → load_entries w.nodes ours ≡ ok o
        → load_entries w.nodes theirs ≡ ok t
        → Yields (merge_loaded node_hash (suc smaller) directory p ours theirs b o t) w m w'
        → (m ≡ none) × (w ≡ w')
    unfolding merge_loaded same_ranges
    loaded-plain p ours theirs (some b) (some o) (some t) w m w' apart c pl lo lt y =
        elim (elim-Yields _ _ (same_ranges b o t) w m w' y) [
          | inr (_, y1) ↦ quiet (pure-Yields none m w w' y1)
          | inl (s, _) ↦
              let (qo, _) = load_entries-IsNode w.nodes ours o lo in
              let (qt, _) = load_entries-IsNode w.nodes theirs t lt in
              let (so, st) = both_shards s in
              absurd (
                apart (
                  sym (c ours o qo)
                  ∙ ap node_hash (
                      all_shards-plain o so (pl ours o qo)
                      ∙ sym (all_shards-plain t st (pl theirs t qt)))
                  ∙ c theirs t qt))
        ]
      where
        both_shards : same_ranges b o t ≡ true → (all_shards o ≡ true) × (all_shards t ≡ true)
        both_shards s = ground arith
    loaded-plain p ours theirs none o t w m w' apart c pl lo lt y =
        quiet (pure-Yields none m w w' y)
    loaded-plain p ours theirs (some b) none t w m w' apart c pl lo lt y =
        quiet (pure-Yields none m w w' y)
    loaded-plain p ours theirs (some b) (some o) none w m w' apart c pl lo lt y =
        quiet (pure-Yields none m w w' y)

    pub sharded-plain :
        (p : Str) (base : Option Str) (ours theirs : Str) (w : Writer) (m : Option (Option Str))
        (w' : Writer)
        → (ours ≡ theirs → ⊥)
        → Consistent node_hash w.nodes
        → IsPlain w.nodes
        → Yields (merge_sharded node_hash (suc smaller) directory p base ours theirs) w m w'
        → (m ≡ none) × (w ≡ w')
    unfolding merge_sharded
    sharded-plain p none ours theirs w m w' apart c pl y = quiet (pure-Yields none m w w' y)
    sharded-plain p (some base) ours theirs w m w' apart c pl y =
        let (b, w1, y1, z1) = bind-Yields (load base) _ w m w' y in
        let (o, w2, y2, z2) = bind-Yields (load ours) _ w1 m w' z1 in
        let (t, w3, y3, z3) = bind-Yields (load theirs) _ w2 m w' z2 in
        let (_, e1) = load-Yields base w b w1 y1 in
        let (lo, e2) = load-Yields ours w1 o w2 y2 in
        let (lt, e3) = load-Yields theirs w2 t w3 y3 in
        let back = sym (e1 ∙ e2 ∙ e3) in
        loaded-plain p ours theirs b o t w m w' apart c pl
          (ap (λ u. load_entries u.nodes ours) e1 ∙ lo)
          (ap (λ u. load_entries u.nodes theirs) (e1 ∙ e2) ∙ lt)
          (subst
            (λ u.
              Yields (merge_loaded node_hash (suc smaller) directory p ours theirs b o t) u m w')
            back z3)

  -- The merged children can be read back.
  build_merged-view :
      (skip : List Str) (out : List Entry) (w : Writer) (r : Option Str) (w' : Writer)
      → Consistent node_hash w.nodes
      → ((k : Str) → In k skip → IsKnown w.nodes k)
      → IsPlain w'.nodes
      → IsSorted out
      → Yields (build_merged node_hash (suc smaller) skip out) w r w'
      → (late : Nodes) → Extends w'.nodes late
      → (x : Str) (xs : List Str) → view late (x ∷ xs) r ≡ below (view late xs) xs (find out x)
  unfolding build_merged find
  build_merged-view skip [] w r w' c known pl so y late ext x xs =
      ap (view late (x ∷ xs)) (sym (pure-Yields none r w w' y).0)
      ∙ (view-none late (x ∷ xs) ∙ sym (below-none (view late xs) xs))
  build_merged-view skip (e ∷ es) w r w' c known pl so y late ext x xs =
      let (h, u, y1, y2) =
        bind-Yields (build_children node_hash (suc smaller) skip (e ∷ es)) (λ h. pure (some h)) w r
          w' y in
      let (q, q') = pure-Yields (some h) r u w' y2 in
      let (stored, _) =
        build_children-stored node_hash inj smaller skip (e ∷ es) w h u c known
          (subst (λ v. IsPlain v.nodes) (sym q') pl) so y1 in
      ap (view late (x ∷ xs)) (sym q)
      ∙ view-node late h (e ∷ es) x xs (ext h (e ∷ es) (ap (λ v. get v.nodes h) (sym q') ∙ stored))

  module _ (directory : Directory) (dm : AllMonotone node_hash directory)
      (ds : IsSound node_hash directory) where
    abbrev run : Str → (ours theirs : Str) → (b o t : Dict Str Entry) → Exec Writer (Option Str)
    run p ours theirs b o t =
        merge_names directory p b o t (names b o t)
        >>= build_merged node_hash (suc smaller) (ours ∷ theirs ∷ [])

    -- The directories are known by their children, and so are the names.
    nodes_sound :
        (p : Str) (base : Option Str) (ours theirs : Str) (bes oes tes : List Entry) (w : Writer)
        (r : Option Str) (w' : Writer)
        → is_valid_from none bes ≡ true
        → IsNode w.nodes ours oes
        → IsNode w.nodes theirs tes
        → ((late : Nodes)
            → Extends w.nodes late
            → (x : Str) (xs : List Str)
            → view late (x ∷ xs) base ≡ below (view late xs) xs (find bes x))
        → Consistent node_hash w.nodes
        → IsPlain w'.nodes
        → w'.conflicts ≡ []
        → Yields (run p ours theirs (by_name bes) (by_name oes) (by_name tes)) w r w'
        → (late : Nodes) → Extends w'.nodes late
        → (parts : List Str)
        → IsMerged
            (view late parts base)
            (view late parts (some ours))
            (view late parts (some theirs))
            (view late parts r)
    nodes_sound p base ours theirs bes oes tes w r w' bv (oq, ov) (tq, tv) at_base c pl n y late ext
          [] =
        inl (
          view-empty late (some ours) ∙ sym (view-empty late (some theirs)),
          view-empty late r ∙ sym (view-empty late (some ours)),
        )
    nodes_sound p base ours theirs bes oes tes w r w' bv (oq, ov) (tq, tv) at_base c pl n y late ext
          (x ∷ xs) =
        let b = by_name bes in
        let o = by_name oes in
        let t = by_name tes in
        let (out, u, y1, y2) =
          bind-Yields (merge_names directory p b o t (names b o t))
            (build_merged node_hash (suc smaller) (ours ∷ theirs ∷ [])) w r w' y in
        let (e1, kept, _) =
          merge_names-IsMonotone node_hash directory dm p b o t (names b o t) w out u y1 in
        let (e2, _, quiet) =
          build_merged-IsMonotone node_hash (suc smaller) (ours ∷ theirs ∷ []) out u r w' y2 in
        let (so, above, gone, me) =
          merge_names_sound node_hash directory dm ds p b o t (names b o t) w out u y1 c
            (IsPlain-Extends u.nodes w'.nodes e2 pl) (quiet n) (names-flat bes oes tes bv ov tv)
            (sorted_set-IsAscending (keys b ++ (keys o ++ keys t))) (λ k. by_name-IsNamed oes k ov)
            (λ k. by_name-IsNamed tes k tv) in
        let v = view late xs in
        let from_w : Extends w.nodes late = λ h es q. ext h es (e2 h es (e1 h es q)) in
        IsMerged-cong (below v xs (get b x)) (below v xs (get o x)) (below v xs (get t x))
          (below v xs (find out x)) (view late (x ∷ xs) base) (view late (x ∷ xs) (some ours))
          (view late (x ∷ xs) (some theirs)) (view late (x ∷ xs) r)
          (ap (below v xs) (get-by_name bes x) ∙ sym (at_base late from_w x xs))
          (ap (below v xs) (get-by_name oes x)
            ∙ sym (view-node late ours oes x xs (from_w ours oes oq)))
          (ap (below v xs) (get-by_name tes x)
            ∙ sym (view-node late theirs tes x xs (from_w theirs tes tq)))
          (sym (
            build_merged-view (ours ∷ theirs ∷ []) out u r w' (kept c)
              (two_known u.nodes (oes, e1 ours oes oq) (tes, e1 theirs tes tq)) pl so y2 late ext x
              xs))
          (merged_at b o t u.nodes out (so, above, gone, me) late (λ h es q. ext h es (e2 h es q)) x
            xs)
      where
        two_known :
            (nodes : Nodes)
            → IsKnown nodes ours
            → IsKnown nodes theirs
            → (k : Str) → In k (ours ∷ theirs ∷ [])
            → IsKnown nodes k
        two_known nodes ko kt k (inl q) = subst (IsKnown nodes) (sym q) ko
        two_known nodes ko kt k (inr (inl q)) = subst (IsKnown nodes) (sym q) kt
        two_known nodes ko kt k (inr (inr m)) = absurd m

    pub children_sound :
        (p : Str) (base : Option Str) (ours theirs : Str) (w : Writer) (r : Option Str)
        (w' : Writer)
        → Yields (merge_children node_hash (suc smaller) directory p base ours theirs) w r w'
        → Consistent node_hash w.nodes
        → IsPlain w.nodes
        → IsPlain w'.nodes
        → w'.conflicts ≡ []
        → (late : Nodes) → Extends w'.nodes late
        → (parts : List Str)
        → IsMerged
            (view late parts base)
            (view late parts (some ours))
            (view late parts (some theirs))
            (view late parts r)
    unfolding merge_children
    children_sound p base ours theirs w r w' y c pl0 pl n late ext parts =
        let (o, w1, y1, z1) = bind-Yields (children_by_name ours) _ w r w' y in
        let (oes, on, qo, e1) = children_by_name-Yields ours w o w1 pl0 y1 in
        let (t, w2, y2, z2) = bind-Yields (children_by_name theirs) _ w1 r w' z1 in
        let (tes, tn, qt, e2) =
          children_by_name-Yields theirs w1 t w2 (subst (λ u. IsPlain u.nodes) e1 pl0) y2 in
        let (b, w3, y3, z3) = bind-Yields (base_by_name base) _ w2 r w' z2 in
        let (bes, bv, qb, e3, at_base) =
          base_by_name-Yields base w2 b w3 (subst (λ u. IsPlain u.nodes) (e1 ∙ e2) pl0) y3 in
        let start = sym (e1 ∙ e2 ∙ e3) in
        nodes_sound p base ours theirs bes oes tes w r w' bv on
          (subst (λ u. IsNode u.nodes theirs tes) (sym e1) tn)
          (λ late ext. at_base late (subst (λ u. Extends u.nodes late) (e1 ∙ e2) ext)) c pl n
          (subst (λ u. Yields (run p ours theirs (by_name bes) (by_name oes) (by_name tes)) u r w')
            start
            (subst (λ d. Yields (run p ours theirs d (by_name oes) (by_name tes)) w3 r w') qb
              (subst (λ d. Yields (run p ours theirs b d (by_name tes)) w3 r w') qo
                (subst (λ d. Yields (run p ours theirs b o d) w3 r w') qt z3))))
          late ext parts
