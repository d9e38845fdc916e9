-- ===== src/Gc/Mark.antt =====
-- The mark phase of `ReflakeRepository.gc`: what can be reached from the branch heads.
pub mod Distinct
pub mod Correct
use mathlib.Core.List.{reverse}
use reflake.Prelude.{
  Str, ℕ, zero, suc, List, [], ◌∷◌, ◌++◌, Option, none, some, Bool, true, false, contains,
  if◌then◌else◌, list_eq, nat_eq,
}
use reflake.Domain.{CommitObject, Result, ok, raise, diverge, ◌>>=◌}
use reflake.Trees.Entry.{Entry, is_subtree, blob_hash}
use reflake.Walk.{walk}

-- `set.add`
unfoldable pub add : Str → List Str → List Str
add x xs = if contains xs x then xs else x ∷ xs

-- `if x: xs.add(x)`
unfoldable pub add_truthy : Option Str → List Str → List Str
unfolding add
add_truthy none xs = xs
add_truthy (some []) xs = xs
add_truthy (some (c ∷ s)) xs = add (c ∷ s) xs

-- The hashes of the subtree entries of a node.
unfoldable pub subtree_hashes : List Entry → List Str
subtree_hashes [] = []
subtree_hashes (e ∷ es) =
    let rest = subtree_hashes es in if is_subtree e then e.hash ∷ rest else rest

-- The heads of the branches, in the order of the refs: `if state and state.commit_id`.
unfoldable pub pending_heads : List (Option Str) → List Str
pending_heads [] = []
pending_heads (none ∷ heads) = pending_heads heads
pending_heads (some [] ∷ heads) = pending_heads heads
pending_heads (some (c ∷ s) ∷ heads) = (c ∷ s) ∷ pending_heads heads

module _ (read_commit : Str → Result CommitObject)
    (load_entries : Str → Result (Option (List Entry))) where
  -- `pending.extend(commit.parents)`
  unfoldable pub next_commits : Str → Result (List Str)
  next_commits id = read_commit id >>= λ commit. ok commit.parents

  -- What `iter_tree_hashes` pushes for a tree node: its subtrees, the first on top.
  unfoldable pub next_trees : Str → Result (List Str)
  unfolding subtree_hashes
  next_trees tree_hash =
      load_entries tree_hash
      >>= elim [ none ↦ ok [] | some entries ↦ ok (reverse (subtree_hashes entries)) ]

  -- The loop over `pending`. `trees` is `seen_trees`, which is `reachable_trees` too: every hash
  -- that is newly seen is yielded.
  unfoldable pub mark : ℕ → ℕ → List Str → List Str → List Str → Result (List Str × List Str)
  unfolding next_trees
  mark tree_fuel zero commits trees pending = diverge
  mark tree_fuel (suc fuel) commits trees pending = elim pending [
    | [] ↦ ok (commits, trees)
    | commit_id ∷ rest ↦ elim (contains commits commit_id) [
      | true ↦ mark tree_fuel fuel commits trees rest
      | false ↦ read_commit commit_id >>= λ commit.
          walk next_trees tree_fuel trees (commit.tree ∷ []) >>= λ trees'.
          mark tree_fuel fuel (commit_id ∷ commits) trees' (reverse commit.parents ++ rest)
    ]
  ]

  -- The blobs and footers of the entries of one node.
  unfoldable pub harvest_entries : List Entry → List Str → List Str → List Str × List Str
  unfolding add_truthy
  harvest_entries [] blobs footers = (blobs, footers)
  harvest_entries (e ∷ es) blobs footers = elim (is_subtree e) [
    | true ↦ harvest_entries es blobs footers
    | false ↦ harvest_entries es (add_truthy (blob_hash e) blobs) (add_truthy e.footer footers)
  ]

  -- The loop over `reachable_trees`.
  unfoldable pub harvest : List Str → List Str → List Str → Result (List Str × List Str)
  unfolding harvest_entries
  harvest [] blobs footers = ok (blobs, footers)
  harvest (tree_hash ∷ trees) blobs footers = load_entries tree_hash >>= elim [
    | none ↦ harvest trees blobs footers
    | some entries ↦
        let (blobs', footers') = harvest_entries entries blobs footers in
        harvest trees blobs' footers'
  ]
