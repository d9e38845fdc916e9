-- ===== src/Gc/Reachable.antt =====
-- What the branch heads reach, by the entries of the tree nodes and the parents of the commits
-- themselves, and that the successors which `gc` computes are these.
use mathlib.Core.List.{reverse}
use reflake.Prelude.{
  Str, List, [], ◌∷◌, In, In-reverse, ◌≡◌, refl, sym, subst, ◌∙◌, ◌↔◌, inl, ⊎_elim, Option, none,
  some, list_eq, nat_eq,
}
use reflake.Domain.{CommitObject, Error, Result, ok, raise, diverge}
use reflake.Trees.Entry.{Entry}
use reflake.Walk.{Reach, root, edge}
use reflake.Walk.Correct.{IsClosed}
use reflake.Gc.Mark.{subtree_hashes, next_commits, next_trees}
use reflake.Gc.Entries.{IsSubtree, In-subtree_hashes}

module _ (read_commit : Str → Result CommitObject)
    (load_entries : Str → Result (Option (List Entry))) where
  abbrev commits_of : Str → Result (List Str)
  commits_of = next_commits read_commit load_entries

  abbrev trees_of : Str → Result (List Str)
  trees_of = next_trees read_commit load_entries

  -- The commit is a head, or a parent of one that is reached.
  pub data CommitReach (heads : List Str) : Str → Type 0 where
    head : {x : Str} → In x heads → CommitReach heads x
    parent :
        {x p : Str} {c : CommitObject}
        → CommitReach heads x
        → read_commit x ≡ ok c
        → In p c.parents
        → CommitReach heads p

  -- The tree node is the top, or an entry of one that is reached names it as its directory or shard.
  pub data TreeReach (start : Str) : Str → Type 0 where
    top : {t : Str} → t ≡ start → TreeReach start t
    child :
        {t h : Str} {es : List Entry} (e : Entry)
        → TreeReach start t
        → load_entries t ≡ ok (some es)
        → In e es
        → IsSubtree e
        → h ≡ e.hash
        → TreeReach start h

  -- The tree node is reached from the tree of a commit of the list.
  abbrev pub InTrees : List Str → Str → Type 0
  InTrees commits t =
      (x : Str) × (c : CommitObject) × In x commits × (read_commit x ≡ ok c) × TreeReach c.tree t

  -- Two finite sets hold every commit and every tree node, all of which can be read.
  pub record IsRepository (commits trees : List Str) : Type 0 where
    pub readable : (x : Str) → In x commits → (c : CommitObject) × (read_commit x ≡ ok c)
    pub parents :
        (x p : Str) (c : CommitObject)
        → In x commits
        → read_commit x ≡ ok c
        → In p c.parents
        → In p commits
    pub rooted :
        (x : Str) (c : CommitObject) → In x commits → read_commit x ≡ ok c → In c.tree trees
    pub loads : (t : Str) → In t trees → (o : Option (List Entry)) × (load_entries t ≡ ok o)
    pub children :
        (t : Str) (es : List Entry) (e : Entry)
        → In t trees
        → load_entries t ≡ ok (some es)
        → In e es
        → IsSubtree e
        → In e.hash trees

  pub commits_of-ok :
      (x : Str) (c : CommitObject) → read_commit x ≡ ok c → commits_of x ≡ ok c.parents
  unfolding next_commits
  commits_of-ok x c e = rw e refl

  pub IsRepository-IsClosed :
      (commits trees : List Str) → IsRepository commits trees → IsClosed commits_of commits
  IsRepository-IsClosed commits trees repo x m =
      let (c, e) = repo.readable x m in
      (c.parents, commits_of-ok x c e, λ y n. repo.parents x y c m e n)

  pub trees_of-none : (t : Str) → load_entries t ≡ ok none → trees_of t ≡ ok []
  unfolding next_trees
  trees_of-none t e = rw e refl

  pub trees_of-some :
      (t : Str) (es : List Entry)
      → load_entries t ≡ ok (some es)
      → trees_of t ≡ ok (reverse (subtree_hashes es))
  unfolding next_trees
  trees_of-some t es e = rw e refl

  trees_of-raise : (t : Str) (x : Error) → load_entries t ≡ raise x → trees_of t ≡ raise x
  unfolding next_trees
  trees_of-raise t x e = rw e refl

  trees_of-diverge : (t : Str) → load_entries t ≡ diverge → trees_of t ≡ diverge
  unfolding next_trees
  trees_of-diverge t e = rw e refl

  commits_of-raise : (t : Str) (x : Error) → read_commit t ≡ raise x → commits_of t ≡ raise x
  unfolding next_commits
  commits_of-raise t x e = rw e refl

  commits_of-diverge : (t : Str) → read_commit t ≡ diverge → commits_of t ≡ diverge
  unfolding next_commits
  commits_of-diverge t e = rw e refl

  In-trees_of :
      (t : Str) (es : List Entry) (more : List Str) (h : Str)
      → load_entries t ≡ ok (some es)
      → trees_of t ≡ ok more
      → In h more ↔ ((e : Entry) × In e es × IsSubtree e × (h ≡ e.hash))
  In-trees_of t es more h l r = (
    λ m. (In-subtree_hashes es h).0 ((In-reverse h (subtree_hashes es)).0 (subst (In h) same m)),
    λ k.
        subst (In h) (sym same)
          ((In-reverse h (subtree_hashes es)).1 ((In-subtree_hashes es h).1 k)),
  )
    where
      same : more ≡ reverse (subtree_hashes es)
      same = cc (sym r ∙ trees_of-some t es l)

  -- The successors of a tree node are the subtrees among its entries.
  trees_of_lem :
      (t : Str) (more : List Str) (h : Str)
      → trees_of t ≡ ok more
      → In h more
      → (es : List Entry) × (e : Entry) × (load_entries t ≡ ok (some es))
        × In e es
        × IsSubtree e
        × (h ≡ e.hash)
  trees_of_lem t more h r m = go (load_entries t) refl
    where
      go :
          (o : Result (Option (List Entry)))
          → load_entries t ≡ o
          → (es : List Entry) × (e : Entry) × (load_entries t ≡ ok (some es))
            × In e es
            × IsSubtree e
            × (h ≡ e.hash)
      go (ok none) l = absurd (subst (In h) nothing m)
        where
          nothing : more ≡ []
          nothing = cc (sym r ∙ trees_of-none t l)
      go (ok (some es)) l =
          let (e, n, s, q) = (In-trees_of t es more h l r).0 m in (es, e, l, n, s, q)
      go (raise x) l = absurd (cc (sym r ∙ trees_of-raise t x l))
      go diverge l = absurd (cc (sym r ∙ trees_of-diverge t l))

  pub IsRepository-trees :
      (commits trees : List Str) → IsRepository commits trees → IsClosed trees_of trees
  IsRepository-trees commits trees repo t m = go (repo.loads t m)
    where
      go :
          (o : Option (List Entry)) × (load_entries t ≡ ok o)
          → (more : List Str) × (trees_of t ≡ ok more) × ((y : Str) → In y more → In y trees)
      go (none, l) = ([], trees_of-none t l, λ y n. absurd n)
      go (some es, l) = (
        reverse (subtree_hashes es),
        trees_of-some t es l,
        λ y n.
            (let (e, k, s, q) = (In-trees_of t es _ y l (trees_of-some t es l)).0 n in
              subst (λ z. In z trees) (sym q) (repo.children t es e m l k s)),
      )

  pub Reach-TreeReach : (start : Str) {t : Str} → Reach trees_of (start ∷ []) t → TreeReach start t
  Reach-TreeReach start (root m) = ⊎_elim (λ q. top q) (λ n. absurd n) m
  Reach-TreeReach start (edge {x} {y} {more} q r m) =
      let (es, e, l, n, s, same) = trees_of_lem x more y r m in
      child e (Reach-TreeReach start q) l n s same

  pub TreeReach-Reach : (start : Str) {t : Str} → TreeReach start t → Reach trees_of (start ∷ []) t
  TreeReach-Reach start (top q) = root (inl q)
  TreeReach-Reach start (child {t} {h} {es} e q l n s same) =
      edge (TreeReach-Reach start q) (trees_of-some t es l)
        ((In-trees_of t es _ h l (trees_of-some t es l)).1 (e, n, s, same))

  pub Reach-CommitReach :
      (heads : List Str) {x : Str} → Reach commits_of heads x → CommitReach heads x
  Reach-CommitReach heads (root m) = head m
  Reach-CommitReach heads (edge {x} {y} {more} q r m) =
      go (Reach-CommitReach heads q) (read_commit x) refl
    where
      go : CommitReach heads x → (o : Result CommitObject) → read_commit x ≡ o → CommitReach heads y
      go known (ok c) e = parent known e (subst (In y) same m)
        where
          same : more ≡ c.parents
          same = cc (sym r ∙ commits_of-ok x c e)
      go known (raise z) e = absurd (cc (sym r ∙ commits_of-raise x z e))
      go known diverge e = absurd (cc (sym r ∙ commits_of-diverge x e))

  pub CommitReach-Reach :
      (heads : List Str) {x : Str} → CommitReach heads x → Reach commits_of heads x
  CommitReach-Reach heads (head m) = root m
  CommitReach-Reach heads (parent {x} {p} {c} q r m) =
      edge (CommitReach-Reach heads q) (commits_of-ok x c r) m

  pub CommitReach-mono :
      (xs ys : List Str)
      → ((x : Str) → In x xs → In x ys)
      → {x : Str} → CommitReach xs x
      → CommitReach ys x
  CommitReach-mono xs ys sub (head m) = head (sub _ m)
  CommitReach-mono xs ys sub (parent q r m) = parent (CommitReach-mono xs ys sub q) r m

  module _ (nodes tree_nodes : List Str) (repo : IsRepository nodes tree_nodes) where
    -- A repository that holds the heads holds what they reach.
    pub CommitReach-In :
        (heads : List Str)
        → ((y : Str) → In y heads → In y nodes)
        → {x : Str} → CommitReach heads x
        → In x nodes
    CommitReach-In heads inside (head m) = inside _ m
    CommitReach-In heads inside (parent {x} {p} {c} q r m) =
        repo.parents x p c (CommitReach-In heads inside q) r m

    pub TreeReach-In :
        (start : Str) → In start tree_nodes → {t : Str} → TreeReach start t → In t tree_nodes
    TreeReach-In start inside (top q) = subst (λ z. In z tree_nodes) (sym q) inside
    TreeReach-In start inside (child {t} {h} {es} e q l n s same) =
        subst (λ z. In z tree_nodes) (sym same)
          (repo.children t es e (TreeReach-In start inside q) l n s)
