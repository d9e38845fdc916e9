-- ===== src/Samples/Witnesses.antt =====
-- The theorems at inputs of the sample repository.
use reflake.Prelude.{
  Str, ℕ, ◌<◌, List, [], ◌∷◌, In, length, any, ◌++◌, ◌+◌, starts_with, ap, subst, ◌==◌,
  if◌then◌else◌, ◌≢◌, ◌⊎◌, ◌≡◌, ◌↔◌, refl, inl, inr, Option, none, some, Bool, true, false, lit,
  list_eq, nat_eq, arith,
}
use reflake.Prelude.Dict.{get, get-nil}
use reflake.Domain.{CommitObject, ok, raise, ref_conflict, non_fast_forward}
use reflake.Graph.Generation.{of, Ancestor}
use reflake.Graph.Generation.Correct.{IsMemo, of_lem}
use reflake.Graph.Ancestor.{is_ancestor_commit}
use reflake.Graph.Ancestor.Correct.{is_ancestor_commit_lem}
use reflake.Graph.MergeBase.{merge_base_commit}
use reflake.Graph.MergeBase.Correct.{IsBest, merge_base_commit_lem}
use reflake.Refs.Manager.{read_commit, update_branch_ref, fast_forward_from}
use mathlib.Core.Option.{some-injective}
use reflake.Walk.{walk, Reach}
use reflake.Walk.Correct.{walk_lem}
use reflake.Trees.Entry.{Entry, blob_hash}
use reflake.Trees.Walker.{iter_entries, child_prefix, load_or_raise}
use reflake.Trees.Walker.Flatten.{Found, flatten, flatten_entries}
use reflake.Trees.Walker.Prefix.{iter_entries_lem}
use reflake.Gc.{PerKind}
use reflake.Gc.Sweep.{sweep_kind, Objects}
use reflake.Gc.Sweep.Correct.{
  condemns, get-sweep_kind, sweep_kind-counts, count, orphan, young_orphan,
}
use reflake.Gc.Mark.{mark, harvest}
use reflake.Gc.Mark.Correct.{mark_lem}
use reflake.Gc.Mark.Distinct.{IsDistinct}
use reflake.Gc.Reachable.{CommitReach, InTrees, IsRepository-IsClosed}
use reflake.Gc.Harvest.{IsKept, harvest_lem}
use reflake.Paths.{matches_logical_path, move_logical_path}
use reflake.Paths.Move.{move_logical_path_lem}
use reflake.Refs.Store.{read_branch_snapshot, commit_id_of, truthy}
use reflake.Refs.Cas.{head_of, reflog_line, update_branch_ref_lem}
use reflake.Refs.FastForward.{Keeps, fast_forward_from_lem}
use reflake.Samples.Repository.{
  t_entries, t_entry, u_entry, load, tree_nodes, commits_of, repository, tree_budget, commit_budget,
}
use reflake.Samples.{a_id, b_id, m_id, nodes, gen, store, world, read}
use reflake.Samples.History.{history, deep}

In-m : In m_id nodes
In-m = inr (inr (inr (inl refl)))

gen-m_id : gen m_id < 3
gen-m_id = deep m_id In-m

nil-IsMemo : IsMemo gen []
nil-IsMemo x g e = cc (get-nil x)

only_m : (y : Str) → In y (m_id ∷ []) → In y nodes
only_m y (inl e) = inr (inr (inr (inl e)))
only_m y (inr n) = absurd n

loads_t : (t : Str) → In t (lit "t" ∷ []) → (o : Option (List Entry)) × (load t ≡ ok o)
unfolding list_eq nat_eq
loads_t t (inl e) = (some t_entries, ap load e)
loads_t t (inr n) = absurd n

below_a : matches_logical_path (lit "a/b") (lit "a") ≡ true
unfolding matches_logical_path starts_with list_eq nat_eq
below_a = refl

from_b : (c : Str) → truthy (some b_id) ≡ some c → In c nodes
unfolding truthy
from_b c e = subst (λ x. In x nodes) (some-injective b_id c e) (inr (inl refl))

abbrev leaves : Found
leaves = (lit "data/part", u_entry) ∷ (lit "readme", t_entry) ∷ []

flat : flatten (load_or_raise load) 3 (lit "t") [] ≡ ok leaves
unfolding flatten flatten_entries load_or_raise child_prefix list_eq nat_eq
flat = refl

of_lem_example :
    (memo : List (Str × ℕ)) × (of read 3 m_id [] ≡ ok (gen m_id, memo)) × IsMemo gen memo
of_lem_example = of_lem gen read nodes history 3 m_id In-m gen-m_id [] nil-IsMemo

is_ancestor_commit_lem_example :
    (b : Bool) × (is_ancestor_commit read 3 6 a_id m_id ≡ ok b)
    × ((b ≡ true) ↔ Ancestor read a_id m_id)
is_ancestor_commit_lem_example =
    is_ancestor_commit_lem read nodes gen history 3 6 a_id m_id deep (inl refl) In-m (omega arith)

merge_base_commit_lem_example :
    (o : Option CommitObject) × (merge_base_commit (read_commit store) 3 9 b_id m_id ≡ ok o)
    × IsBest (read_commit store) nodes gen b_id m_id o
merge_base_commit_lem_example =
    merge_base_commit_lem (read_commit store) nodes gen b_id m_id history (inr (inl refl)) In-m 3
      deep 9 (omega arith)

walk_lem_example :
    (out : List Str) × (walk commits_of 6 [] (m_id ∷ []) ≡ ok out)
    × ((x : Str) → In x out ↔ (In x [] ⊎ Reach commits_of (m_id ∷ []) x))
walk_lem_example =
    walk_lem commits_of nodes [] (m_id ∷ [])
      (IsRepository-IsClosed (read_commit store) load nodes tree_nodes repository)
      (λ x y more m e n. absurd m) only_m 6 (omega (arith, commit_budget))

mark_lem_example :
    (commits trees : List Str) × (mark (read_commit store) load 4 6 [] [] (m_id ∷ [])
      ≡ ok (commits, trees))
    × ((x : Str) → In x commits ↔ CommitReach (read_commit store) load (m_id ∷ []) x)
    × ((t : Str) → In t trees ↔ InTrees (read_commit store) load commits t)
    × IsDistinct commits
    × IsDistinct trees
mark_lem_example =
    mark_lem (read_commit store) load nodes tree_nodes repository 4 (omega (arith, tree_budget)) 6
      (m_id ∷ []) only_m (omega (arith, commit_budget))

harvest_lem_example :
    (blobs footers : List Str) × (harvest (read_commit store) load (lit "t" ∷ []) [] []
      ≡ ok (blobs, footers))
    × ((b : Str)
        → In b blobs ↔ (In b [] ⊎ IsKept (read_commit store) load blob_hash (lit "t" ∷ []) b))
    × ((b : Str)
        → In b footers
          ↔ (In b [] ⊎ IsKept (read_commit store) load (λ e. e.footer) (lit "t" ∷ []) b))
harvest_lem_example = harvest_lem (read_commit store) load (lit "t" ∷ []) [] [] loads_t

-- Objects `p`, `q` and `r` of one kind; only `p` is reachable, and `r` is young.
abbrev objects : Objects
objects = (lit "p", 1) ∷ (lit "q", 2) ∷ (lit "r", 90) ∷ []

get-sweep_kind_example :
    get (sweep_kind (lit "p" ∷ []) false 50 objects objects).objects (lit "q") ≡ (
      if any (condemns (lit "p" ∷ []) false 50 (lit "q")) objects
      then none
      else get objects (lit "q"))
get-sweep_kind_example = get-sweep_kind (lit "p" ∷ []) false 50 objects objects (lit "q")

sweep_kind-counts_example :
    let t = sweep_kind (lit "p" ∷ []) false 50 objects objects in
    (t.stored ≡ length objects)
    × (t.orphans ≡ count (lit "p" ∷ []) false 50 (orphan (lit "p" ∷ []) false 50) objects)
    × (t.skipped_young
        ≡ count (lit "p" ∷ []) false 50 (young_orphan (lit "p" ∷ []) false 50) objects)
    × (t.deleted + (if false then t.orphans else t.skipped_young) ≡ t.orphans)
sweep_kind-counts_example = sweep_kind-counts (lit "p" ∷ []) false 50 objects objects

move_logical_path_lem_example :
    let moved = move_logical_path (lit "a/b") (lit "a") (lit "c") in
    (matches_logical_path moved (lit "c") ≡ true)
    × (move_logical_path moved (lit "c") (lit "a") ≡ lit "a/b")
move_logical_path_lem_example = move_logical_path_lem (lit "a/b") (lit "a") (lit "c") below_a

iter_entries_lem_example :
    (rounds : ℕ) × ((more : ℕ)
      → iter_entries (load_or_raise load) (rounds + more) (lit "t") ≡ ok leaves)
iter_entries_lem_example = iter_entries_lem (load_or_raise load) 3 (lit "t") leaves flat

fast_forward_from_lem_example :
    let (r, w') = fast_forward_from 3 6 (lit "main") m_id "merge" (some b_id) world in
    ((r ≡ ok true)
      × (head_of store (lit "main") ≡ some b_id)
      × Keeps world (truthy (some b_id)) m_id
      × ((j : Str)
          → head_of w'.store j ≡ (if j == lit "main" then truthy (some m_id) else head_of store j))
      × (w'.store.commits ≡ store.commits))
    ⊎ ((w'.store ≡ store)
        × (((r ≡ ok false) × ◌≡◌ {A = Option Str} (some b_id) (some m_id))
            ⊎ ((r ≡ raise (non_fast_forward (lit "main") (some b_id) m_id))
                × (Keeps world (truthy (some b_id)) m_id → ⊥))
            ⊎ ((r
                  ≡ raise
                      (ref_conflict (lit "main") "merge" (some b_id) (head_of store (lit "main"))))
                × (head_of store (lit "main") ≢ some b_id))))
fast_forward_from_lem_example =
    fast_forward_from_lem world nodes gen history 3 6 deep (omega arith) (lit "main") m_id
      (some b_id) "merge" from_b In-m

update_branch_ref_lem_example :
    let (r, w') = update_branch_ref (lit "main") (some m_id) (some b_id) "merge" world in
    ((head_of store (lit "main") ≡ some b_id)
      × (r ≡ ok tt)
      × ((j : Str)
          → head_of w'.store j ≡ (if j == lit "main" then truthy (some m_id) else head_of store j))
      × (commit_id_of (read_branch_snapshot w'.client (lit "main")) ≡ truthy (some m_id))
      × (w'.store.commits ≡ store.commits)
      × (w'.client.reflog ≡ [] ++ reflog_line (lit "main") (some b_id) (some m_id) "merge" ∷ []))
    ⊎ ((head_of store (lit "main") ≢ some b_id)
        × (r ≡ raise (ref_conflict (lit "main") "merge" (some b_id) (head_of store (lit "main"))))
        × (w'.store ≡ store)
        × (w'.client.reflog ≡ []))
update_branch_ref_lem_example =
    update_branch_ref_lem (lit "main") (some m_id) (some b_id) "merge" world

abbrev stored : PerKind Objects
stored = record {
  commit = (a_id, 1) ∷ (lit "z", 1) ∷ [];
  tree = (lit "t", 1) ∷ (lit "u", 1) ∷ (lit "w", 1) ∷ (lit "v", 1) ∷ [];
  blob = (lit "x", 1) ∷ (lit "y", 1) ∷ [];
  footer = (lit "f", 1) ∷ [];
}
