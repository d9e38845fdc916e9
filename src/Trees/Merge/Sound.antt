-- ===== src/Trees/Merge/Sound.antt =====
-- A three-way merge without conflicts merges every path of the tree.
use reflake.Prelude.{
  Str, ℕ, zero, suc, List, [], ◌∷◌, Option, none, some, ◌≡◌, refl, sym, ap, subst, ◌∙◌, inl, inr,
  ==_iff, ◌==◌, list_eq, nat_eq, option_eq,
}
use reflake.Prelude.Dict.{get}
use reflake.Domain.{merge_conflict}
use reflake.Exec.{pure, throw, modify, ◌>>◌}
use reflake.Exec.Yields.{Yields, bind-Yields, pure-Yields, elim-Yields}
use reflake.Trees.Entry.{Entry}
use reflake.Trees.Node.{Nodes}
use reflake.Trees.Writer.{Writer, write_tree_bytes}
use reflake.Trees.Writer.Stored.{
  Extends, Consistent, IsInjective, Grows, Grows_refl, write_tree_bytes-stored,
  write_tree_bytes-IsMonotone,
}
use reflake.Trees.Writer.Build.{IsPlain}
use reflake.Trees.Merge.{
  Directory, merge_sharded, merge_children, merge_apart, merge_step, merge_directory,
  three_way_merge, merge_trees, sorted,
}
use reflake.Trees.Merge.Names.{find}
use reflake.Trees.Merge.View.{view, IsMerged}
use reflake.Trees.Merge.Growth.{
  AllMonotone, merge_sharded-IsMonotone, merge_children-IsMonotone, merge_directory-IsMonotone,
}
use reflake.Trees.Merge.Child.{IsSound, conflict-Yields, view-none, view-empty, below-none}
use reflake.Trees.Merge.Loop.{IsPlain-Extends}
use reflake.Trees.Merge.Read.{view-node}
use reflake.Trees.Merge.Apart.{sharded-plain, children_sound}

module _ (node_hash : List Entry → Str) (inj : IsInjective node_hash) (smaller : ℕ) where
  module _ (directory : Directory) (dm : AllMonotone node_hash directory)
      (ds : IsSound node_hash directory) where
    both_sound :
        (p : Str) (base : Option Str) (ours theirs : Str) (w : Writer) (o : Option (Option Str))
        (u : Writer) (r : Option Str) (w' : Writer)
        → (ours ≡ theirs → ⊥)
        → Consistent node_hash w.nodes
        → IsPlain w'.nodes
        → w'.conflicts ≡ []
        → Yields (merge_sharded node_hash (suc smaller) directory p base ours theirs) w o u
        → Yields
            (elim o [
              | some merged ↦ pure merged
              | none ↦ merge_children node_hash (suc smaller) directory p base ours theirs
            ])
            u
            r
            w'
        → (late : Nodes) → Extends w'.nodes late
        → (parts : List Str)
        → IsMerged
            (view late parts base)
            (view late parts (some ours))
            (view late parts (some theirs))
            (view late parts r)
    both_sound p base ours theirs w (some m) u r w' apart c pl n y1 y2 late ext parts =
        let (_, q) = pure-Yields m r u w' y2 in
        let (e, _, _) =
          merge_sharded-IsMonotone node_hash directory dm (suc smaller) p base ours theirs w
            (some m) u y1 in
        let pl0 = IsPlain-Extends w.nodes u.nodes e (subst (λ v. IsPlain v.nodes) (sym q) pl) in
        absurd (
          cc
            (sharded-plain node_hash inj smaller directory p base ours theirs w (some m) u apart c
              pl0 y1).0)
    both_sound p base ours theirs w none u r w' apart c pl n y1 y2 late ext parts =
        let (_, kept, _) =
          merge_sharded-IsMonotone node_hash directory dm (suc smaller) p base ours theirs w none u
            y1 in
        let (e, _, _) =
          merge_children-IsMonotone node_hash directory dm (suc smaller) p base ours theirs u r w'
            y2 in
        children_sound node_hash inj smaller directory dm ds p base ours theirs u r w' y2 (kept c)
          (IsPlain-Extends u.nodes w'.nodes e pl) pl n late ext parts

    apart_sound :
        (p : Str) (b o t : Option Str) (w : Writer) (r : Option Str) (w' : Writer)
        → (o ≡ t → ⊥)
        → Yields (merge_apart node_hash (suc smaller) directory p b o t) w r w'
        → Consistent node_hash w.nodes
        → IsPlain w'.nodes
        → w'.conflicts ≡ []
        → (late : Nodes) → Extends w'.nodes late
        → (parts : List Str)
        → IsMerged (view late parts b) (view late parts o) (view late parts t) (view late parts r)
    unfolding merge_apart
    apart_sound p b none t w r w' apart y c pl n late ext parts =
        absurd (conflict-Yields p t r w w' y n)
    apart_sound p b (some o) none w r w' apart y c pl n late ext parts =
        absurd (conflict-Yields p (some o) r w w' y n)
    apart_sound p b (some o) (some t) w r w' apart y c pl n late ext parts =
        let (m, u, y1, y2) =
          bind-Yields (merge_sharded node_hash (suc smaller) directory p b o t) _ w r w' y in
        both_sound p b o t w m u r w' (λ q. apart (ap some q)) c pl n y1 y2 late ext parts

    step-IsSound : IsSound node_hash (merge_step node_hash (suc smaller) directory)
    unfolding merge_step
    step-IsSound p b o t w r w' y c pl n late ext parts =
        let v = view late parts in
        elim (elim-Yields _ _ (o == t) w r w' y) [
          | inl (e, y1) ↦ inl (ap v ((==_iff o t).0 e), ap v (sym (pure-Yields o r w w' y1).0))
          | inr (e, y1) ↦ elim (elim-Yields _ _ (o == b) w r w' y1) [
            | inl (e1, y2) ↦
                inr (inl (ap v ((==_iff o b).0 e1), ap v (sym (pure-Yields t r w w' y2).0)))
            | inr (_, y2) ↦ elim (elim-Yields _ _ (t == b) w r w' y2) [
              | inl (e2, y3) ↦
                  inr (inr (ap v ((==_iff t b).0 e2), ap v (sym (pure-Yields o r w w' y3).0)))
              | inr (_, y3) ↦
                  apart_sound p b o t w r w' (λ q. cc ((==_iff o t).1 q, e)) y3 c pl n late ext
                    parts
            ]
          ]
        ]

  merge_directory-IsSound :
      (fuel : ℕ) → IsSound node_hash (merge_directory node_hash (suc smaller) fuel)
  unfolding merge_directory
  merge_directory-IsSound zero p b o t w r w' y c pl n late ext parts =
      absurd (cc (ap (λ x. x.0) y))
  merge_directory-IsSound (suc fuel) p b o t w r w' y c pl n late ext parts =
      step-IsSound (merge_directory node_hash (suc smaller) fuel)
        (merge_directory-IsMonotone node_hash (suc smaller) fuel) (merge_directory-IsSound fuel) p b
        o t w r w' y c pl n late ext parts

  view-nil :
      (late : Nodes) (h : Str) (parts : List Str)
      → get late h ≡ some []
      → view late parts (some h) ≡ view late parts none
  unfolding find
  view-nil late h [] q = view-empty late (some h) ∙ sym (view-none late [])
  view-nil late h (x ∷ xs) q =
      view-node late h [] x xs q ∙ (below-none (view late xs) xs ∙ sym (view-none late (x ∷ xs)))

  -- The root that a merge answers with shows what `_merge_directory` gave.
  root_view :
      (m : Option Str) (u : Writer) (merged : Str) (w' : Writer)
      → Consistent node_hash u.nodes
      → Yields
          (elim m [ some h ↦ pure h | none ↦ write_tree_bytes node_hash (suc smaller) [] [] ])
          u
          merged
          w'
      → Grows node_hash u w'
        × ((parts : List Str) → view w'.nodes parts (some merged) ≡ view w'.nodes parts m)
  root_view (some h) u merged w' c y =
      let (q, q') = pure-Yields h merged u w' y in
      (
        subst (Grows node_hash u) q' (Grows_refl node_hash u),
        λ parts. ap (λ k. view w'.nodes parts (some k)) (sym q),
      )
  root_view none u merged w' c y =
      let (stored, _) =
        write_tree_bytes-stored node_hash (suc smaller) [] [] u merged w' inj c (λ k m. absurd m)
          y in
      (
        write_tree_bytes-IsMonotone node_hash (suc smaller) [] [] u merged w' y,
        λ parts. view-nil w'.nodes merged parts stored,
      )

  three_way_merge_sound :
      (fuel : ℕ) (base : Option Str) (ours theirs : Str) (w : Writer) (merged : Str) (w' : Writer)
      → Yields (three_way_merge node_hash (suc smaller) fuel base ours theirs) w merged w'
      → Consistent node_hash w.nodes
      → IsPlain w'.nodes
      → w'.conflicts ≡ []
      → Extends w.nodes w'.nodes
        × ((parts : List Str)
            → IsMerged
                (view w'.nodes parts base)
                (view w'.nodes parts (some ours))
                (view w'.nodes parts (some theirs))
                (view w'.nodes parts (some merged)))
  unfolding three_way_merge
  three_way_merge_sound fuel base ours theirs w merged w' y c pl n =
      let run = merge_directory node_hash (suc smaller) fuel [] base (some ours) (some theirs) in
      let (m, u, y1, y2) =
        bind-Yields (modify (λ w. record w { conflicts = [] }) >> run) _ w merged w' y in
      let w0 : Writer = record w { conflicts = [] } in
      let (e1, kept, _) =
        merge_directory-IsMonotone node_hash (suc smaller) fuel [] base (some ours) (some theirs) w0
          m u y1 in
      let ((e2, _, quiet), same) = root_view m u merged w' (kept c) y2 in
      (
        λ h es q. e2 h es (e1 h es q),
        λ parts.
            subst
              (IsMerged (view w'.nodes parts base) (view w'.nodes parts (some ours))
                (view w'.nodes parts (some theirs)))
              (sym (same parts))
              (merge_directory-IsSound fuel [] base (some ours) (some theirs) w0 m u y1 c
                (IsPlain-Extends u.nodes w'.nodes e2 pl) (quiet n) w'.nodes e2 parts),
      )

  no_conflicts :
      (cs : List Str) (merged result : Str) (u w' : Writer)
      → Yields
          (elim cs [
            | [] ↦ pure merged
            | path ∷ paths ↦ throw (merge_conflict (sorted (path ∷ paths)))
          ])
          u
          result
          w'
      → (cs ≡ []) × (merged ≡ result) × (u ≡ w')
  no_conflicts [] merged result u w' y =
      let (q, q') = pure-Yields merged result u w' y in (refl, q, q')
  no_conflicts (p ∷ ps) merged result u w' y = absurd (cc (ap (λ x. x.0) y))

  -- Where the hashes of different nodes differ and nodes hold at least one entry, from a store that has each node
  -- under its hash, a three-way merge that returns and leaves no sharded directory has kept every
  -- node of the store, and each path is in the merged tree as in both sides where these agree, and
  -- otherwise as in the side that is not as the base.
  pub merge_trees_sound :
      (fuel : ℕ) (base : Option Str) (ours theirs : Str) (w : Writer) (merged : Str) (w' : Writer)
      → Consistent node_hash w.nodes
      → IsPlain w'.nodes
      → Yields (merge_trees node_hash (suc smaller) fuel base ours theirs) w merged w'
      → Extends w.nodes w'.nodes
        × ((parts : List Str)
            → IsMerged
                (view w'.nodes parts base)
                (view w'.nodes parts (some ours))
                (view w'.nodes parts (some theirs))
                (view w'.nodes parts (some merged)))
  unfolding merge_trees
  merge_trees_sound fuel base ours theirs w merged w' c pl y =
      let (m, u, y1, y2) =
        bind-Yields (three_way_merge node_hash (suc smaller) fuel base ours theirs) _ w merged w'
          y in
      let (none_left, q, q') = no_conflicts u.conflicts m merged u w' y2 in
      subst
        (λ v.
          Extends w.nodes v.nodes
          × ((parts : List Str)
              → IsMerged (view v.nodes parts base) (view v.nodes parts (some ours))
                  (view v.nodes parts (some theirs)) (view v.nodes parts (some merged))))
        q'
        (subst
          (λ h.
            Extends w.nodes u.nodes
            × ((parts : List Str)
                → IsMerged (view u.nodes parts base) (view u.nodes parts (some ours))
                    (view u.nodes parts (some theirs)) (view u.nodes parts (some h))))
          q
          (three_way_merge_sound fuel base ours theirs w m u y1 c
            (subst (λ v. IsPlain v.nodes) (sym q') pl) none_left))
