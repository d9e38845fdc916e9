-- ===== src/Trees/Writer.antt =====
-- `TreeWriter` of core/services/tree.py: writing nodes, and cutting large directories into shards.
pub mod Stored
pub mod Build
pub mod Ends
use reflake.Prelude.{
  Str, ℕ, zero, suc, ◌+◌, List, [], ◌∷◌, Option, none, some, Bool, true, false, not, ◌==◌, contains,
  length, take, drop, str_lt, leb, if◌then◌else◌, list_eq, nat_eq,
}
use reflake.Prelude.Dict.{get, put}
use reflake.Domain.{diverge}
use reflake.Exec.{Exec, pure, lift, modify, ◌>>=◌, ◌>>◌}
use reflake.Trees.Entry.{Entry, EntryKind}
use reflake.Trees.Node.{Nodes, validate_tree_node, subtree_line}

-- The tree objects, and the list of conflicts that a merge hands down.
pub record Writer : Type 0 where
  pub nodes : Nodes
  pub conflicts : List Str

-- `write_tree_bytes(..., if_missing=True)` of the object store.
unfoldable pub put_missing : Nodes → Str → List Entry → Nodes
put_missing nodes tree_hash es = elim (get nodes tree_hash) [
  | none ↦ put nodes tree_hash es
  | some _ ↦ nodes
]

unfoldable pub store_node : Str → List Entry → Writer → Writer
unfolding put_missing
store_node tree_hash es w = record w { nodes = put_missing w.nodes tree_hash es }

-- `sorted(children, key=...)`
unfoldable pub insert_child : Entry → List Entry → List Entry
insert_child e [] = e ∷ []
insert_child e (x ∷ xs) =
    let rest = insert_child e xs in if str_lt x.path e.path then x ∷ rest else e ∷ x ∷ xs

unfoldable pub sort_children : List Entry → List Entry
unfolding insert_child
sort_children [] = []
sort_children (e ∷ es) = insert_child e (sort_children es)

-- The slices of `range(0, len(children), max_tree_entries)`; there are at most as many as children.
unfoldable pub chunks : ℕ → ℕ → List Entry → List (List Entry)
chunks max_tree_entries zero es = []
chunks max_tree_entries (suc count) [] = []
chunks max_tree_entries (suc count) (e ∷ es) =
    take max_tree_entries (e ∷ es) ∷ chunks max_tree_entries count (drop max_tree_entries (e ∷ es))

-- `node_hash` is the blake3 digest of the node's lines. A line is the entry that it spells: the texts
-- that `_write_tree_bytes` joins are not built.
module _ (node_hash : List Entry → Str) (max_tree_entries : ℕ) where
  -- `_write_tree_bytes`
  unfoldable pub write_tree_bytes : List Str → List Entry → Exec Writer Str
  unfolding validate_tree_node store_node
  write_tree_bytes skip_hashes es = do
    lift (validate_tree_node es)
    elim (contains skip_hashes (node_hash es)) [
      | true ↦ pure (node_hash es)
      | false ↦ modify (store_node (node_hash es) es) >> pure (node_hash es)
    ]

  -- `_write_plain_node`
  unfoldable pub write_plain_node : List Str → List Entry → Exec Writer Str
  unfolding write_tree_bytes
  write_plain_node skip_hashes es = write_tree_bytes skip_hashes es

  -- The loop of `_build_children` over the slices, none of which is empty.
  unfoldable pub write_shards : List Str → List (List Entry) → Exec Writer (List Entry)
  unfolding write_plain_node
  write_shards skip_hashes [] = pure []
  write_shards skip_hashes ([] ∷ rest) = write_shards skip_hashes rest
  write_shards skip_hashes ((e ∷ es) ∷ rest) = do
    shard_hash ← write_plain_node skip_hashes (e ∷ es)
    more ← write_shards skip_hashes rest
    pure (subtree_line EntryKind.shard e.path shard_hash ∷ more)

  -- `_build_children`, of children that are sorted.
  unfoldable pub build_sorted : ℕ → List Str → List Entry → Exec Writer Str
  unfolding write_tree_bytes write_shards chunks
  build_sorted zero skip_hashes es = lift diverge
  build_sorted (suc fuel) skip_hashes es = elim (leb (length es) max_tree_entries) [
    | true ↦ write_tree_bytes skip_hashes es
    | false ↦ write_shards skip_hashes (chunks max_tree_entries (length es) es) >>= λ shards.
        build_sorted fuel skip_hashes shards
  ]

  -- `_build_children`; each turn leaves fewer entries.
  unfoldable pub build_children : List Str → List Entry → Exec Writer Str
  unfolding build_sorted sort_children
  build_children skip_hashes children =
      build_sorted (length children + 1) skip_hashes (sort_children children)
