-- ===== src/Trees/Merge/Ends.antt =====
-- A three-way merge ends: it goes no deeper than the tree of our side.
use reflake.Prelude.{
  Str, ℕ, zero, suc, List, [], ◌∷◌, ◌++◌, Option, none, some, true, ◌≡◌, refl, sym, ap, subst, ◌∙◌,
  All, In-All, ◌==◌, list_eq, nat_eq, option_eq, arith,
}
use reflake.Prelude.Dict.{Dict, get, keys}
use reflake.Domain.{ok, merge_conflict}
use reflake.Exec.{pure, throw, modify, ◌>>◌}
use reflake.Exec.Yields.{Yields, bind-Yields, pure-Yields}
use reflake.Exec.Ends.{Ends, pure-Ends, throw-Ends, elim-Ends, bind-Ends}
use reflake.Trees.Entry.{Entry}
use reflake.Trees.Node.{Nodes, load_entries, by_name}
use reflake.Trees.Lookup.{load_children}
use reflake.Trees.Writer.{Writer, write_tree_bytes, build_children}
use reflake.Trees.Writer.Ends.{write_tree_bytes-Ends, build_children-Ends}
use reflake.Trees.Merge.{
  Directory, conflict, merge_names, merge_ranges, same_ranges, all_shards, load, children_by_name,
  base_by_name, build_merged, merge_loaded, merge_sharded, merge_children, merge_apart, merge_step,
  merge_directory, three_way_merge, merge_trees, sorted_set, sorted,
}
use reflake.Trees.Merge.Names.{get-by_name}
use reflake.Trees.Merge.Growth.{
  AllMonotone, merge_sharded-IsMonotone, children_by_name-IsMonotone, base_by_name-IsMonotone,
  merge_directory-IsMonotone,
}
use reflake.Trees.Merge.Read.{find-In, load_entries-IsNode}
use reflake.Trees.Merge.Progress.{EndsAt, conflict-Ends, merge_names-Ends, merge_ranges-Ends}
use reflake.Trees.Merge.Apart.{load-Yields}
use reflake.Trees.Merge.Depth.{
  HasDepth, HasDepth-Extends, subtree_shard, load-Ends, load_children-IsDeep, load_children-Ends,
  IsDeep,
}

children_by_name-Ends : (h : Str) (w : Writer) → Ends (children_by_name h) w
unfolding children_by_name
children_by_name-Ends h w =
    bind-Ends (λ w. (load_children (load_entries w.nodes) h, w)) (λ es. pure (by_name es)) w
      (load_children-Ends w.nodes h) (λ es t y. pure-Ends (by_name es) t)

base_by_name-Ends : (b : Option Str) (w : Writer) → Ends (base_by_name b) w
unfolding base_by_name
base_by_name-Ends none w = pure-Ends [] w
base_by_name-Ends (some h) w = children_by_name-Ends h w

-- A child of our side by its name lies less deep.
children-IsDeep :
    (h : Str) (w : Writer) (d : Dict Str Entry) (w' : Writer) (depth : ℕ)
    → HasDepth w.nodes (suc depth) h
    → Yields (children_by_name h) w d w'
    → (n : Str) (e : Entry) → get d n ≡ some e
    → IsDeep w.nodes depth e
unfolding children_by_name
children-IsDeep h w d w' depth deep y n e q =
    let (es, u, y1, y2) =
      bind-Yields (λ w. (load_children (load_entries w.nodes) h, w)) (λ es. pure (by_name es)) w d
        w' y in
    let below = load_children-IsDeep w.nodes depth h es deep (ap (λ x. x.0) y1) in
    let (same, _) = pure-Yields (by_name es) d u w' y2 in
    let (m, _) = find-In es n e (sym (get-by_name es n) ∙ ap (λ k. get k n) same ∙ q) in
    In-All (IsDeep w.nodes depth) e es below m

module _ (node_hash : List Entry → Str) where
  module _ (depth : ℕ) (directory : Directory) (dm : AllMonotone node_hash directory)
      (de : EndsAt node_hash depth directory) where
    module _ (m : ℕ) where
      build_merged-Ends :
          (skip : List Str) (es : List Entry) (w : Writer)
          → Ends (build_merged node_hash (suc (suc m)) skip es) w
      unfolding build_merged
      build_merged-Ends skip [] w = pure-Ends none w
      build_merged-Ends skip (e ∷ es) w =
          bind-Ends (build_children node_hash (suc (suc m)) skip (e ∷ es)) _ w
            (build_children-Ends node_hash m skip (e ∷ es) w) (λ h t y. pure-Ends (some h) t)

      shards-Deep :
          (nodes : Nodes) (es : List Entry)
          → all_shards es ≡ true
          → All (IsDeep nodes depth) es
          → All (λ e. HasDepth nodes depth e.hash) es
      unfolding all_shards
      shards-Deep nodes [] s h = tt
      shards-Deep nodes (e ∷ es) s (h, hs) =
          (h (subtree_shard e.kind (ground arith)), shards-Deep nodes es (ground arith) hs)

      merge_loaded-Ends :
          (p ours theirs : Str) (b o t : Option (List Entry)) (w : Writer)
          → ((es : List Entry) → o ≡ some es → All (IsDeep w.nodes depth) es)
          → Ends (merge_loaded node_hash (suc (suc m)) directory p ours theirs b o t) w
      unfolding merge_loaded same_ranges
      merge_loaded-Ends p ours theirs (some b) (some o) (some t) w deep =
          elim-Ends _ (pure none) (same_ranges b o t) w
            (λ s.
              bind-Ends (merge_ranges directory p b o t) _ w
                (merge_ranges-Ends node_hash depth directory dm de p b o t w
                  (shards-Deep w.nodes o (mid s) (deep o refl)))
                (λ shards u y.
                  bind-Ends (build_merged node_hash (suc (suc m)) (ours ∷ theirs ∷ []) shards) _ u
                    (build_merged-Ends (ours ∷ theirs ∷ []) shards u)
                    (λ r v z. pure-Ends (some r) v)))
            (λ _. pure-Ends none w)
        where
          mid : same_ranges b o t ≡ true → all_shards o ≡ true
          mid s = ground arith
      merge_loaded-Ends p ours theirs none o t w deep = pure-Ends none w
      merge_loaded-Ends p ours theirs (some b) none t w deep = pure-Ends none w
      merge_loaded-Ends p ours theirs (some b) (some o) none w deep = pure-Ends none w

      merge_sharded-Ends :
          (p : Str) (base : Option Str) (ours theirs : Str) (w : Writer)
          → HasDepth w.nodes (suc depth) ours
          → Ends (merge_sharded node_hash (suc (suc m)) directory p base ours theirs) w
      unfolding merge_sharded
      merge_sharded-Ends p none ours theirs w deep = pure-Ends none w
      merge_sharded-Ends p (some base) ours theirs w (es, q, below) =
          bind-Ends (load base) _ w (load-Ends base w) (λ b w1 y1.
            bind-Ends (load ours) _ w1 (load-Ends ours w1) (λ o w2 y2.
              bind-Ends (load theirs) _ w2 (load-Ends theirs w2) (λ t w3 y3.
                let (_, e1) = load-Yields base w b w1 y1 in
                let (lo, e2) = load-Yields ours w1 o w2 y2 in
                let (_, e3) = load-Yields theirs w2 t w3 y3 in
                merge_loaded-Ends p ours theirs b o t w3 (λ xs k.
                  let lo' : load_entries w.nodes ours ≡ ok (some xs) =
                    ap (λ u. load_entries u.nodes ours) e1 ∙ lo ∙ ap ok k in
                  let (r, _) = load_entries-IsNode w.nodes ours xs lo' in
                  let same : es ≡ xs = cc (sym q ∙ r) in
                  subst (λ u. All (IsDeep u.nodes depth) xs) (e1 ∙ e2 ∙ e3)
                    (subst (λ l. All (IsDeep w.nodes depth) l) same below)))))

      merge_children-Ends :
          (p : Str) (base : Option Str) (ours theirs : Str) (w : Writer)
          → HasDepth w.nodes (suc depth) ours
          → Ends (merge_children node_hash (suc (suc m)) directory p base ours theirs) w
      unfolding merge_children
      merge_children-Ends p base ours theirs w deep =
          bind-Ends (children_by_name ours) _ w (children_by_name-Ends ours w) (λ o w1 y1.
            bind-Ends (children_by_name theirs) _ w1 (children_by_name-Ends theirs w1) (λ t w2 y2.
              bind-Ends (base_by_name base) _ w2 (base_by_name-Ends base w2) (λ b w3 y3.
                bind-Ends
                  (merge_names directory p b o t (sorted_set (keys b ++ (keys o ++ keys t)))) _ w3
                  (merge_names-Ends node_hash depth directory dm de p b o t
                    (sorted_set (keys b ++ (keys o ++ keys t))) w3
                    (λ n e q s.
                      HasDepth-Extends w.nodes w3.nodes depth e.hash
                        (λ h es k. (base_by_name-IsMonotone node_hash base w2 b w3 y3).0 h es (
                          (children_by_name-IsMonotone node_hash theirs w1 t w2 y2).0 h es
                            ((children_by_name-IsMonotone node_hash ours w o w1 y1).0 h es k)))
                        (children-IsDeep ours w o w1 depth deep y1 n e q s)))
                  (λ es u z. build_merged-Ends (ours ∷ theirs ∷ []) es u))))

      merge_step-Ends : EndsAt node_hash (suc depth) (merge_step node_hash (suc (suc m)) directory)
      unfolding merge_step merge_apart
      merge_step-Ends p b o t w deep =
          elim-Ends (pure (some o)) _ (some o == t) w (λ _. pure-Ends (some o) w)
            (λ _.
              elim-Ends (pure t) _ (some o == b) w (λ _. pure-Ends t w)
                (λ _.
                  elim-Ends (pure (some o))
                    (merge_apart node_hash (suc (suc m)) directory p b (some o) t) (t == b) w
                    (λ _. pure-Ends (some o) w) (λ _. apart t)))
        where
          answered :
              (t : Str) (r : Option (Option Str)) (u : Writer)
              → HasDepth u.nodes (suc depth) o
              → Ends {A = Option Str}
                  (elim r [
                    | some merged ↦ pure merged
                    | none ↦ merge_children node_hash (suc (suc m)) directory p b o t
                  ])
                  u
          answered t none u k = merge_children-Ends p b o t u k
          answered t (some merged) u k = pure-Ends merged u

          apart :
              (t : Option Str)
              → Ends (merge_apart node_hash (suc (suc m)) directory p b (some o) t) w
          apart none =
              bind-Ends (conflict p) (λ _. pure (some o)) w (conflict-Ends node_hash p w)
                (λ u v y. pure-Ends (some o) v)
          apart (some t) =
              bind-Ends (merge_sharded node_hash (suc (suc m)) directory p b o t) _ w
                (merge_sharded-Ends p b o t w deep)
                (λ r u y. answered t r u (
                  HasDepth-Extends w.nodes u.nodes (suc depth) o
                    (merge_sharded-IsMonotone node_hash directory dm (suc (suc m)) p b o t w r u
                      y).0
                    deep))

  module _ (m : ℕ) where
    merge_directory-Ends :
        (depth : ℕ) → EndsAt node_hash depth (merge_directory node_hash (suc (suc m)) depth)
    unfolding merge_directory
    merge_directory-Ends zero p b o t w deep = absurd deep
    merge_directory-Ends (suc depth) p b o t w deep =
        merge_step-Ends depth (merge_directory node_hash (suc (suc m)) depth)
          (merge_directory-IsMonotone node_hash (suc (suc m)) depth) (merge_directory-Ends depth) m
          p b o t w deep

    three_way_merge-Ends :
        (depth : ℕ) (base : Option Str) (ours theirs : Str) (w : Writer)
        → HasDepth w.nodes depth ours
        → Ends (three_way_merge node_hash (suc (suc m)) depth base ours theirs) w
    unfolding three_way_merge
    three_way_merge-Ends depth base ours theirs w deep =
        bind-Ends
          (modify (λ w. record w { conflicts = [] })
            >> merge_directory node_hash (suc (suc m)) depth [] base (some ours) (some theirs))
          _ w
          (merge_directory-Ends depth [] base ours (some theirs) (record w { conflicts = [] }) deep)
          (λ r u y. root r u)
      where
        root :
            (r : Option Str) (u : Writer)
            → Ends {A = Str}
                (elim r [
                  | some merged ↦ pure merged
                  | none ↦ write_tree_bytes node_hash (suc (suc m)) [] []
                ])
                u
        root none u = write_tree_bytes-Ends node_hash (suc (suc m)) [] [] u
        root (some merged) u = pure-Ends merged u

    -- If nodes may hold at least two entries and our tree is stored whole, with fuel for its levels a three-way
    -- merge ends, whatever base and theirs are: it returns a tree or raises an error.
    pub merge_trees-Ends :
        (depth : ℕ) (base : Option Str) (ours theirs : Str) (w : Writer)
        → HasDepth w.nodes depth ours
        → Ends (merge_trees node_hash (suc (suc m)) depth base ours theirs) w
    unfolding merge_trees
    merge_trees-Ends depth base ours theirs w deep =
        bind-Ends (three_way_merge node_hash (suc (suc m)) depth base ours theirs) _ w
          (three_way_merge-Ends depth base ours theirs w deep)
          (λ merged u y. conflicts u.conflicts merged u)
      where
        conflicts :
            (cs : List Str) (merged : Str) (u : Writer)
            → Ends {A = Str}
                (elim cs [
                  | [] ↦ pure merged
                  | path ∷ paths ↦ throw (merge_conflict (sorted (path ∷ paths)))
                ])
                u
        conflicts [] merged u = pure-Ends merged u
        conflicts (c ∷ cs) merged u = throw-Ends (merge_conflict (sorted (c ∷ cs))) u
