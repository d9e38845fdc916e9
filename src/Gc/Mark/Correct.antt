-- ===== src/Gc/Mark/Correct.antt =====
-- The mark phase returns, and finds exactly what is reachable.
use mathlib.Core.List.{reverse}
use reflake.Prelude.{
  Str, ℕ, zero, suc, ◌+◌, ◌<◌, List, [], ◌∷◌, ◌++◌, In, In-append, In-reverse, ◌≡◌, refl, sym, ap,
  subst, ◌∙◌, ◌↔◌, ◌⊎◌, inl, inr, ⊎_elim, Option, true, false, Bool-cases, contains, length,
  list_eq, nat_eq, arith,
}
use reflake.Domain.{CommitObject, Result, ok}
use reflake.Trees.Entry.{Entry}
use reflake.Walk.{visit, walk, Reach, edge}
use reflake.Walk.Correct.{budget, budget_le, walk_lem}
use reflake.Gc.Mark.{next_commits, next_trees, mark}
use reflake.Gc.Mark.Distinct.{IsDistinct, mark-IsDistinct}
use reflake.Gc.Reachable.{
  CommitReach, InTrees, IsRepository, IsRepository-IsClosed, IsRepository-trees, commits_of-ok,
  Reach-TreeReach, TreeReach-Reach, Reach-CommitReach, CommitReach-Reach,
}

ok_injective : {xs ys : List Str} → ◌≡◌ {A = Result (List Str)} (ok xs) (ok ys) → xs ≡ ys
ok_injective e = cc

module _ (next : Str → Result (List Str)) where
  visit-known :
      (x : Str) (seen rest : List Str)
      → contains seen x ≡ true
      → visit next x seen rest ≡ ok (seen, rest)
  unfolding visit
  visit-known x seen rest e = rw e refl

  visit-new :
      (x : Str) (seen rest more : List Str)
      → contains seen x ≡ false
      → next x ≡ ok more
      → visit next x seen rest ≡ ok (x ∷ seen, reverse more ++ rest)
  unfolding visit
  visit-new x seen rest more e r = rw (e, r) refl

  walk-step :
      (fuel : ℕ) (x : Str) (seen rest seen' rest' : List Str)
      → visit next x seen rest ≡ ok (seen', rest')
      → walk next (suc fuel) seen (x ∷ rest) ≡ walk next fuel seen' rest'
  unfolding walk
  walk-step fuel x seen rest seen' rest' e = rw e refl

module _ (read_commit : Str → Result CommitObject)
    (load_entries : Str → Result (Option (List Entry))) where
  abbrev commits_of : Str → Result (List Str)
  commits_of = next_commits read_commit load_entries

  abbrev trees_of : Str → Result (List Str)
  trees_of = next_trees read_commit load_entries

  -- As `InTrees`, by the walk that marks.
  abbrev InWalked : List Str → Str → Type 0
  InWalked commits t =
      (x : Str) × (c : CommitObject) × In x commits
      × (read_commit x ≡ ok c)
      × Reach trees_of (c.tree ∷ []) t

  InWalked-InTrees :
      (commits : List Str) (t : Str)
      → InWalked commits t ↔ InTrees read_commit load_entries commits t
  InWalked-InTrees commits t = (
    λ (x, c, m, e, q). (x, c, m, e, Reach-TreeReach read_commit load_entries c.tree q),
    λ (x, c, m, e, q). (x, c, m, e, TreeReach-Reach read_commit load_entries c.tree q),
  )

  module _ (nodes tree_nodes : List Str)
      (repo : IsRepository read_commit load_entries nodes tree_nodes) (tree_fuel : ℕ)
      (enough : budget trees_of tree_nodes [] + 1 < tree_fuel) where
    abbrev IsMarked : List Str → List Str → Type 0
    IsMarked commits trees = (t : Str) → In t trees ↔ InWalked commits t

    -- The trees after one more commit.
    mark_tree :
        (x : Str) (c : CommitObject) (commits trees : List Str)
        → In x nodes
        → read_commit x ≡ ok c
        → IsMarked commits trees
        → (trees' : List Str) × (walk trees_of tree_fuel trees (c.tree ∷ []) ≡ ok trees')
          × IsMarked (x ∷ commits) trees'
    mark_tree x c commits trees m e marked =
        let (trees', r, exact) =
          walk_lem trees_of tree_nodes trees (c.tree ∷ [])
            (IsRepository-trees read_commit load_entries nodes tree_nodes repo)
            (λ y z more k e' n. (marked z).1 (further y z more e' n ((marked y).0 k)))
            (λ y k.
              ⊎_elim (λ q. subst (λ z. In z tree_nodes) (sym q) (repo.rooted x c m e))
                (λ n. absurd n) k)
            tree_fuel (omega (arith, enough, budget_le trees_of tree_nodes trees)) in
        (
          trees',
          r,
          λ t. (
            λ k.
                ⊎_elim (λ k'. older t ((marked t).0 k')) (λ q. (x, c, inl refl, e, q))
                  ((exact t).0 k),
            λ k. (exact t).1 (newer t k),
          ),
        )
      where
        further :
            (y z : Str) (more : List Str)
            → trees_of y ≡ ok more
            → In z more
            → InWalked commits y
            → InWalked commits z
        further y z more e' n (x', c', m', r, q) = (x', c', m', r, edge q e' n)

        older : (t : Str) → InWalked commits t → InWalked (x ∷ commits) t
        older t (x', c', m', r, q) = (x', c', inr m', r, q)

        one : {x' : Str} (c' : CommitObject) → x' ≡ x → read_commit x' ≡ ok c' → c' ≡ c
        one c' same r = cc

        newer : (t : Str) → InWalked (x ∷ commits) t → In t trees ⊎ Reach trees_of (c.tree ∷ []) t
        newer t (x', c', inl same, r, q) =
            inr (subst (λ d. Reach trees_of (d.tree ∷ []) t) (one c' same r) q)
        newer t (x', c', inr m', r, q) = inl ((marked t).1 (x', c', m', r, q))

    mark-known :
        (fuel : ℕ) (x : Str) (commits trees rest : List Str)
        → contains commits x ≡ true
        → mark read_commit load_entries tree_fuel (suc fuel) commits trees (x ∷ rest)
          ≡ mark read_commit load_entries tree_fuel fuel commits trees rest
    unfolding mark
    mark-known fuel x commits trees rest e = rw (e, mark) refl

    mark-new :
        (fuel : ℕ) (x : Str) (c : CommitObject) (commits trees trees' rest : List Str)
        → contains commits x ≡ false
        → read_commit x ≡ ok c
        → walk trees_of tree_fuel trees (c.tree ∷ []) ≡ ok trees'
        → mark read_commit load_entries tree_fuel (suc fuel) commits trees (x ∷ rest)
          ≡ mark read_commit load_entries tree_fuel fuel
              (x ∷ commits)
              trees'
              (reverse c.parents ++ rest)
    unfolding mark
    mark-new fuel x c commits trees trees' rest e r w = rw (e, mark) (rw (r, w) refl)

    mark-end :
        (fuel : ℕ) (commits trees out : List Str)
        → walk commits_of fuel commits [] ≡ ok out
        → (mark read_commit load_entries tree_fuel fuel commits trees [] ≡ ok (out, trees))
          × (commits ≡ out)
    unfolding mark walk
    mark-end zero commits trees out e = cc
    mark-end (suc fuel) commits trees out e =
        (ap (λ o. ok (o, trees)) (ok_injective e), ok_injective e)

    pushed :
        (x : Str) (c : CommitObject) (rest : List Str) (y : Str)
        → read_commit x ≡ ok c
        → In x nodes
        → ((z : Str) → In z rest → In z nodes)
        → In y (reverse c.parents ++ rest)
        → In y nodes
    pushed x c rest y e m inside k =
        ⊎_elim (λ n. repo.parents x y c m e ((In-reverse y c.parents).0 n)) (inside y)
          ((In-append y (reverse c.parents) rest).0 k)

    walk-zero : (commits pending out : List Str) → walk commits_of 0 commits pending ≡ ok out → ⊥
    unfolding walk
    walk-zero commits pending out e = cc

    -- The loop keeps in step with the walk over the commits.
    mark-walk :
        (fuel : ℕ) (commits trees pending out : List Str)
        → ((y : Str) → In y pending → In y nodes)
        → IsMarked commits trees
        → walk commits_of fuel commits pending ≡ ok out
        → (trees' : List Str) × (mark read_commit load_entries tree_fuel fuel commits trees pending
            ≡ ok (out, trees'))
          × IsMarked out trees'
    mark-walk zero commits trees pending out inside marked e =
        absurd (walk-zero commits pending out e)
    mark-walk (suc fuel) commits trees [] out inside marked e =
        let (done, same) = mark-end (suc fuel) commits trees out e in
        (trees, done, subst (λ cs. IsMarked cs trees) same marked)
    mark-walk (suc fuel) commits trees (x ∷ rest) out inside marked e =
        elim (Bool-cases (contains commits x)) [
          | inl known ↦
              let (trees', r, marked') =
                mark-walk fuel commits trees rest out (λ y m. inside y (inr m)) marked
                  (sym (
                      walk-step commits_of fuel x commits rest commits rest
                        (visit-known commits_of x commits rest known))
                    ∙ e) in
              (trees', mark-known fuel x commits trees rest known ∙ r, marked')
          | inr fresh ↦
              let m = inside x (inl refl) in
              let (c, r) = repo.readable x m in
              let (trees1, r1, marked1) = mark_tree x c commits trees m r marked in
              let (trees', r', marked') =
                mark-walk fuel (x ∷ commits) trees1 (reverse c.parents ++ rest) out
                  (λ y k. pushed x c rest y r m (λ z n. inside z (inr n)) k) marked1
                  (sym (
                      walk-step commits_of fuel x commits rest _ _ (
                        visit-new commits_of x commits rest c.parents fresh
                          (commits_of-ok read_commit load_entries x c r)))
                    ∙ e) in
              (trees', mark-new fuel x c commits trees trees1 rest fresh r r1 ∙ r', marked')
        ]

    -- In a repository that holds all the heads, with fuel for the edges between its commits and for
    -- those between its trees, the mark phase returns the commits that are the heads or parents of
    -- such commits, and the tree nodes that the trees of those are or name, over any number of
    -- nodes, as directories or shards; and nothing else, and none twice.
    pub mark_lem :
        (fuel : ℕ) (heads : List Str)
        → ((y : Str) → In y heads → In y nodes)
        → budget commits_of nodes [] + length heads < fuel
        → (commits trees : List Str) × (mark read_commit load_entries tree_fuel fuel [] [] heads
            ≡ ok (commits, trees))
          × ((x : Str) → In x commits ↔ CommitReach read_commit load_entries heads x)
          × ((t : Str) → In t trees ↔ InTrees read_commit load_entries commits t)
          × IsDistinct commits
          × IsDistinct trees
    mark_lem fuel heads inside lt =
        let (commits, r, exact) =
          walk_lem commits_of nodes [] heads
            (IsRepository-IsClosed read_commit load_entries nodes tree_nodes repo)
            (λ x y more m e n. absurd m) inside fuel lt in
        let (trees, r', marked) =
          mark-walk fuel [] [] heads commits inside
            (λ t. ((λ m. absurd m), (λ (x, c, m, e, q). absurd m))) r in
        let (once, once') =
          mark-IsDistinct read_commit load_entries tree_fuel fuel [] [] heads commits trees tt tt
            r' in
        (
          commits,
          trees,
          r',
          (λ x. (
            λ m.
                ⊎_elim (λ n. absurd n) (Reach-CommitReach read_commit load_entries heads)
                  ((exact x).0 m),
            λ q. (exact x).1 (inr (CommitReach-Reach read_commit load_entries heads q)),
          )),
          (λ t. (
            λ m. (InWalked-InTrees commits t).0 ((marked t).0 m),
            λ q. (marked t).1 ((InWalked-InTrees commits t).1 q),
          )),
          once,
          once',
        )
