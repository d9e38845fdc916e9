-- ===== src/Trees/Merge/Deleted.antt =====
-- A name that both sides have deleted.
use reflake.Prelude.{
  Str, ℕ, zero, suc, List, [], ◌∷◌, ◌++◌, Option, none, some, false, ◌≡◌, ◌≢◌, refl, sym, ap, subst,
  ◌∙◌, inl, inr, In, ==_iff, ◌==◌, list_eq, nat_eq, option_eq,
}
use reflake.Prelude.Dict.{Dict, get, keys}
use reflake.Exec.{pure}
use reflake.Exec.Yields.{Yields, bind-Yields, elim-Yields, is_ok, not-Yields}
use reflake.Trees.Entry.{Entry}
use reflake.Trees.Node.{by_name}
use reflake.Trees.Writer.{Writer}
use reflake.Trees.Writer.Stored.{Consistent, IsInjective}
use reflake.Trees.Writer.Build.{IsPlain}
use reflake.Trees.Merge.{
  Directory, merge_child, merge_names, merge_sharded, merge_children, merge_apart, merge_step,
  merge_directory, children_by_name, base_by_name, join_path, sorted_set,
}
use reflake.Trees.Merge.Names.{find, get-by_name}
use reflake.Trees.Merge.Loop.{names-cons}
use reflake.Trees.Merge.Read.{children_by_name-Yields}
use reflake.Trees.Merge.Apart.{sharded-plain}
use reflake.Trees.Merge.Union.{names-In}

child-deleted :
    (directory : Directory) (p : Str) (base o t : Option Entry) (w : Writer) (r : Option Entry)
    (w' : Writer)
    → o ≡ none
    → t ≡ none
    → Yields (merge_child directory p base o t) w r w'
    → ⊥
unfolding merge_child
child-deleted directory p base none none w r w' qo qt y = cc (ap (λ x. x.0) y)
child-deleted directory p base (some o) t w r w' qo qt y = cc qo
child-deleted directory p base none (some t) w r w' qo qt y = cc qt

names-deleted :
    (directory : Directory) (p : Str) (b o t : Dict Str Entry) (n : Str) (names : List Str)
    (w : Writer) (out : List Entry) (w' : Writer)
    → In n names
    → get o n ≡ none
    → get t n ≡ none
    → Yields (merge_names directory p b o t names) w out w'
    → ⊥
names-deleted directory p b o t n [] w out w' m qo qt y = m
names-deleted directory p b o t n (k ∷ names) w out w' (inl q) qo qt y =
    let (r, u, rest, y1, y2, _) = names-cons directory p b o t k names w out w' y in
    child-deleted directory (join_path p k) (get b k) (get o k) (get t k) w r u
      (ap (get o) (sym q) ∙ qo) (ap (get t) (sym q) ∙ qt) y1
names-deleted directory p b o t n (k ∷ names) w out w' (inr m) qo qt y =
    let (r, u, rest, y1, y2, _) = names-cons directory p b o t k names w out w' y in
    names-deleted directory p b o t n names u rest w' m qo qt y2

child_at :
    (n h : Str) (es es' : List Entry) (d : Dict Str Entry) (w u : Writer)
    → w ≡ u
    → get w.nodes h ≡ some es
    → get u.nodes h ≡ some es'
    → d ≡ by_name es'
    → get d n ≡ find es n
child_at n h es es' d w u same q q' e =
    let one : es' ≡ es = cc (sym q' ∙ ap (λ v. get v.nodes h) (sym same) ∙ q) in
    ap (λ k. get k n) e ∙ get-by_name es' n ∙ ap (λ l. find l n) one

module _ (node_hash : List Entry → Str) (smaller : ℕ) where
  children-deleted :
      (directory : Directory) (p base ours theirs : Str) (bes oes tes : List Entry) (n : Str)
      (w : Writer) (r : Option Str) (w' : Writer)
      → IsPlain w.nodes
      → get w.nodes base ≡ some bes
      → get w.nodes ours ≡ some oes
      → get w.nodes theirs ≡ some tes
      → find bes n ≢ none
      → find oes n ≡ none
      → find tes n ≡ none
      → Yields (merge_children node_hash (suc smaller) directory p (some base) ours theirs) w r w'
      → ⊥
  unfolding merge_children base_by_name
  children-deleted directory p base ours theirs bes oes tes n w r w' pl bq oq tq fb fo ft y =
      let (o, w1, y1, z1) = bind-Yields (children_by_name ours) _ w r w' y in
      let (oes', (oq', _), qo, e1) = children_by_name-Yields ours w o w1 pl y1 in
      let pl1 = subst (λ u. IsPlain u.nodes) e1 pl in
      let (t, w2, y2, z2) = bind-Yields (children_by_name theirs) _ w1 r w' z1 in
      let (tes', (tq', _), qt, e2) = children_by_name-Yields theirs w1 t w2 pl1 y2 in
      let pl2 = subst (λ u. IsPlain u.nodes) e2 pl1 in
      let (b, w3, y3, z3) = bind-Yields (children_by_name base) _ w2 r w' z2 in
      let (bes', (bq', _), qb, e3) = children_by_name-Yields base w2 b w3 pl2 y3 in
      let (out, w4, y4, _) =
        bind-Yields (merge_names directory p b o t (sorted_set (keys b ++ (keys o ++ keys t)))) _ w3
          r w' z3 in
      let at_o = child_at n ours oes oes' o w w refl oq oq' qo in
      let at_t = child_at n theirs tes tes' t w w1 e1 tq tq' qt in
      let at_b = child_at n base bes bes' b w w2 (e1 ∙ e2) bq bq' qb in
      names-deleted directory p b o t n (sorted_set (keys b ++ (keys o ++ keys t))) w3 out w4
        (names-In b o t n (inl (λ q. fb (sym at_b ∙ q)))) (at_o ∙ fo) (at_t ∙ ft) y4

  module _ (inj : IsInjective node_hash) where
    directory-deleted :
        (fuel : ℕ) (p base ours theirs : Str) (bes oes tes : List Entry) (n : Str) (w : Writer)
        (r : Option Str) (w' : Writer)
        → Consistent node_hash w.nodes
        → IsPlain w.nodes
        → ours ≢ theirs
        → ours ≢ base
        → theirs ≢ base
        → get w.nodes base ≡ some bes
        → get w.nodes ours ≡ some oes
        → get w.nodes theirs ≡ some tes
        → find bes n ≢ none
        → find oes n ≡ none
        → find tes n ≡ none
        → Yields
            (merge_directory node_hash (suc smaller) fuel p (some base) (some ours) (some theirs))
            w
            r
            w'
        → ⊥
    unfolding merge_directory merge_step merge_apart
    directory-deleted zero p base ours theirs bes oes tes n w r w' c pl ot ob tb bq oq tq fb fo ft
          y =
        cc (ap (λ x. x.0) y)
    directory-deleted (suc fuel) p base ours theirs bes oes tes n w r w' c pl ot ob tb bq oq tq fb
          fo ft y =
        elim (elim-Yields _ _ (some ours == some theirs) w r w' y) [
          | inl (e, _) ↦ ot (cc ((==_iff (some ours) (some theirs)).0 e))
          | inr (_, y1) ↦ elim (elim-Yields _ _ (some ours == some base) w r w' y1) [
            | inl (e, _) ↦ ob (cc ((==_iff (some ours) (some base)).0 e))
            | inr (_, y2) ↦ elim (elim-Yields _ _ (some theirs == some base) w r w' y2) [
              | inl (e, _) ↦ tb (cc ((==_iff (some theirs) (some base)).0 e))
              | inr (_, y3) ↦
                  let (m, u, z1, z2) =
                    bind-Yields
                      (merge_sharded node_hash (suc smaller)
                        (merge_directory node_hash (suc smaller) fuel) p (some base) ours theirs)
                      _ w r w' y3 in
                  apart m u z1 z2
            ]
          ]
        ]
      where
        apart :
            (m : Option (Option Str)) (u : Writer)
            → Yields
                (merge_sharded node_hash
                  (suc smaller)
                  (merge_directory node_hash (suc smaller) fuel)
                  p
                  (some base)
                  ours
                  theirs)
                w
                m
                u
            → Yields
                (elim m [
                  | some merged ↦ pure merged
                  | none ↦
                      merge_children node_hash
                        (suc smaller)
                        (merge_directory node_hash (suc smaller) fuel)
                        p
                        (some base)
                        ours
                        theirs
                ])
                u
                r
                w'
            → ⊥
        apart (some k) u z1 z2 =
            cc
              (sharded-plain node_hash inj smaller (merge_directory node_hash (suc smaller) fuel) p
                (some base) ours theirs w (some k) u ot c pl z1).0
        apart none u z1 z2 =
            let (_, same) =
              sharded-plain node_hash inj smaller (merge_directory node_hash (suc smaller) fuel) p
                (some base) ours theirs w none u ot c pl z1 in
            children-deleted (merge_directory node_hash (suc smaller) fuel) p base ours theirs bes
              oes tes n w r w' pl bq oq tq fb fo ft
              (subst
                (λ v.
                  Yields
                    (merge_children node_hash (suc smaller)
                      (merge_directory node_hash (suc smaller) fuel) p (some base) ours theirs)
                    v r w')
                (sym same) z2)

    -- In a store without shards that has each node under its hash, for a directory that differs on all three
    -- sides, with a name that the base has and neither side: the merge of the directory never
    -- returns, although both sides agree on deleting the name.
    pub merge_directory-deleted :
        (fuel : ℕ) (p base ours theirs : Str) (bes oes tes : List Entry) (n : Str) (w : Writer)
        → Consistent node_hash w.nodes
        → IsPlain w.nodes
        → ours ≢ theirs
        → ours ≢ base
        → theirs ≢ base
        → get w.nodes base ≡ some bes
        → get w.nodes ours ≡ some oes
        → get w.nodes theirs ≡ some tes
        → find bes n ≢ none
        → find oes n ≡ none
        → find tes n ≡ none
        → is_ok
            (merge_directory node_hash
              (suc smaller)
              fuel
              p
              (some base)
              (some ours)
              (some theirs)
              w).0
          ≡ false
    merge_directory-deleted fuel p base ours theirs bes oes tes n w c pl ot ob tb bq oq tq fb fo
          ft =
        not-Yields
          (merge_directory node_hash (suc smaller) fuel p (some base) (some ours) (some theirs)) w
          (λ r w' y.
            directory-deleted fuel p base ours theirs bes oes tes n w r w' c pl ot ob tb bq oq tq fb
              fo ft y)
