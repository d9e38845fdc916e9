-- ===== src/Trees/Merge.antt =====
-- The three-way merge of `TreeWriter` (core/services/tree.py).
pub mod Names
pub mod View
pub mod Growth
pub mod Child
pub mod Loop
pub mod Read
pub mod Union
pub mod Apart
pub mod Sound
pub mod Deleted
pub mod Depth
pub mod Progress
pub mod Ends
use reflake.Prelude.{
  Str, ℕ, zero, suc, List, [], ◌∷◌, ◌++◌, map, Option, none, some, Bool, true, false, not, ◌&&◌,
  ◌==◌, str_lt, if◌then◌else◌, lit, list_eq, nat_eq, option_eq,
}
use reflake.Prelude.Dict.{Dict, get, keys}
use reflake.Domain.{Result, ok, raise, diverge, assertion_failed, merge_conflict}
use reflake.Exec.{Exec, pure, throw, lift, gets, modify, ◌>>=◌, ◌>>◌}
use reflake.Trees.Entry.{Entry, EntryKind, is_subtree, kind_text}
use reflake.Trees.Node.{Nodes, load_entries, by_name, subtree_line, entry_to_leaf_line}
use reflake.Trees.Lookup.{is_shard, load_children}
use reflake.Trees.Writer.{Writer, write_tree_bytes, build_children}

-- `equal` of `_merge_child`
unfoldable pub equal : Option Entry → Option Entry → Bool
equal (some left) (some right) =
    (kind_text left.kind == kind_text right.kind && left.hash == right.hash)
    && left.size == right.size
equal (some left) none = false
equal none right = false

-- `sorted(set(...))`, one name at a time.
unfoldable pub insert_name : Str → List Str → List Str
insert_name name [] = name ∷ []
insert_name name (x ∷ xs) =
    let rest = insert_name name xs in
    if name == x then x ∷ xs else if str_lt x name then x ∷ rest else name ∷ x ∷ xs

unfoldable pub sorted_set : List Str → List Str
unfolding insert_name
sorted_set [] = []
sorted_set (x ∷ xs) = insert_name x (sorted_set xs)

-- `sorted(conflicts)`
unfoldable pub insert_path : Str → List Str → List Str
insert_path path [] = path ∷ []
insert_path path (x ∷ xs) =
    let rest = insert_path path xs in if str_lt x path then x ∷ rest else path ∷ x ∷ xs

unfoldable pub sorted : List Str → List Str
unfolding insert_path
sorted [] = []
sorted (x ∷ xs) = insert_path x (sorted xs)

-- `f"{dir_path}/{name}" if dir_path else name`
unfoldable pub join_path : Str → Str → Str
join_path [] name = name
join_path (c ∷ dir_path) name = ((c ∷ dir_path) ++ lit "/") ++ name

unfoldable pub conflict : Str → Exec Writer (Unit {0})
conflict path = modify (λ w. record w { conflicts = w.conflicts ++ path ∷ [] })

-- `base.hash if base is not None and base.is_subtree else None`
unfoldable pub subtree_hash : Option Entry → Option Str
subtree_hash none = none
subtree_hash (some e) = if is_subtree e then some e.hash else none

-- `_merge_directory`, as its callees call it: the path and the hashes of base, ours and theirs.
abbrev pub Directory : Type 0
Directory = Str → Option Str → Option Str → Option Str → Exec Writer (Option Str)

-- The line that `_merge_directory` writes for a merged child.
unfoldable pub child_line : Entry → Entry
unfolding subtree_line entry_to_leaf_line
child_line merged = elim (is_subtree merged) [
  | true ↦ subtree_line merged.kind merged.path merged.hash
  | false ↦ entry_to_leaf_line merged
]

module _ (directory : Directory) where
  -- `_merge_child` on two children that are there and not equal.
  unfoldable pub merge_both : Str → Option Entry → Entry → Entry → Exec Writer (Option Entry)
  unfolding equal conflict subtree_hash subtree_line
  merge_both path base ours theirs = elim (equal (some ours) base) [
    | true ↦ pure (some theirs)
    | false ↦ elim (equal (some theirs) base) [
      | true ↦ pure (some ours)
      | false ↦ elim (is_subtree ours && is_subtree theirs) [
        | true ↦
            directory path (subtree_hash base) (some ours.hash) (some theirs.hash)
            >>= λ merged_hash. elim merged_hash [
              | none ↦ pure none
              | some h ↦ pure (some (subtree_line ours.kind ours.path h))
            ]
        | false ↦ conflict path >> pure (some ours)
      ]
    ]
  ]

  -- `_merge_child` on a child that one side has.
  unfoldable pub merge_present : Str → Option Entry → Entry → Exec Writer (Option Entry)
  unfolding equal conflict
  merge_present path none present = pure (some present)
  merge_present path (some base) present = elim (equal (some present) (some base)) [
    | true ↦ pure none
    | false ↦ conflict path >> pure (some present)
  ]

  -- `_merge_child`
  unfoldable pub merge_child :
      Str → Option Entry → Option Entry → Option Entry → Exec Writer (Option Entry)
  unfolding equal merge_both merge_present
  merge_child path base none none = throw assertion_failed
  merge_child path base (some ours) none = merge_present path base ours
  merge_child path base none (some theirs) = merge_present path base theirs
  merge_child path base (some ours) (some theirs) = elim (equal (some ours) (some theirs)) [
    | true ↦ pure (some ours)
    | false ↦ merge_both path base ours theirs
  ]

  -- The loop of `_merge_directory` over the names.
  unfoldable pub merge_names :
      Str → (base ours theirs : Dict Str Entry) → List Str → Exec Writer (List Entry)
  unfolding merge_child join_path child_line
  merge_names dir_path base ours theirs [] = pure []
  merge_names dir_path base ours theirs (name ∷ names) = do
    merged ← merge_child (join_path dir_path name) (get base name) (get ours name) (get theirs name)
    rest ← merge_names dir_path base ours theirs names
    pure (elim merged [ none ↦ rest | some e ↦ child_line e ∷ rest ])

  -- One range of `_merge_sharded`.
  unfoldable pub merge_range : Str → (base ours theirs : Entry) → Exec Writer (Option Str)
  merge_range dir_path base ours theirs = elim (ours.hash == theirs.hash) [
    | true ↦ pure (some ours.hash)
    | false ↦ elim (ours.hash == base.hash) [
      | true ↦ pure (some theirs.hash)
      | false ↦ elim (theirs.hash == base.hash) [
        | true ↦ pure (some ours.hash)
        | false ↦ directory dir_path (some base.hash) (some ours.hash) (some theirs.hash)
      ]
    ]
  ]

  -- The loop of `_merge_sharded` over the ranges; the three nodes are of one length.
  unfoldable pub merge_ranges : Str → (base ours theirs : List Entry) → Exec Writer (List Entry)
  unfolding merge_range subtree_line
  merge_ranges dir_path (base ∷ bases) (ours ∷ ourss) (theirs ∷ theirss) = do
    merged_hash ← merge_range dir_path base ours theirs
    rest ← merge_ranges dir_path bases ourss theirss
    pure (elim merged_hash [
      | none ↦ rest
      | some h ↦ subtree_line EntryKind.shard ours.path h ∷ rest
    ])
  merge_ranges dir_path bases ourss theirss = pure []

unfoldable pub all_shards : List Entry → Bool
all_shards [] = true
all_shards (e ∷ es) = is_shard e && all_shards es

abbrev pub paths : List Entry → List Str
paths es = map (λ e. e.path) es

-- The tests of `_merge_sharded` on the three nodes.
unfoldable pub same_ranges : (base ours theirs : List Entry) → Bool
unfolding all_shards
same_ranges base ours theirs =
    ((all_shards base && all_shards ours) && all_shards theirs)
    && (paths ours == paths theirs && paths base == paths theirs)

unfoldable pub load : Str → Exec Writer (Option (List Entry))
unfolding load_entries
load tree_hash w = (load_entries w.nodes tree_hash, w)

-- `_children_by_name`
unfoldable pub children_by_name : Str → Exec Writer (Dict Str Entry)
unfolding load_children load_entries by_name
children_by_name tree_hash = do
  children ← λ w. (load_children (load_entries w.nodes) tree_hash, w)
  pure (by_name children)

-- `{} if base_hash is None else self._children_by_name(base_hash)`
unfoldable pub base_by_name : Option Str → Exec Writer (Dict Str Entry)
unfolding children_by_name
base_by_name none = pure []
base_by_name (some base_hash) = children_by_name base_hash

module _ (node_hash : List Entry → Str) (max_tree_entries : ℕ) where
  -- What `_merge_directory` and `_merge_sharded` do with the merged children.
  unfoldable pub build_merged : List Str → List Entry → Exec Writer (Option Str)
  unfolding build_children
  build_merged skip_hashes [] = pure none
  build_merged skip_hashes (e ∷ es) =
      build_children node_hash max_tree_entries skip_hashes (e ∷ es) >>= λ h. pure (some h)

  module _ (directory : Directory) where
    -- `_merge_sharded`, once the three nodes are loaded; the answer `none` is `(False, None)`.
    unfoldable pub merge_loaded :
        Str
        → (ours_hash theirs_hash : Str) → (base ours theirs : Option (List Entry))
        → Exec Writer (Option (Option Str))
    unfolding same_ranges merge_ranges build_merged
    merge_loaded dir_path ours_hash theirs_hash (some base) (some ours) (some theirs) =
        elim (same_ranges base ours theirs) [
          | false ↦ pure none
          | true ↦ merge_ranges directory dir_path base ours theirs >>= λ shards.
              build_merged (ours_hash ∷ theirs_hash ∷ []) shards >>= λ merged. pure (some merged)
        ]
    merge_loaded dir_path ours_hash theirs_hash base ours theirs = pure none

    -- `_merge_sharded`
    unfoldable pub merge_sharded :
        Str → Option Str → (ours_hash theirs_hash : Str) → Exec Writer (Option (Option Str))
    unfolding merge_loaded load
    merge_sharded dir_path none ours_hash theirs_hash = pure none
    merge_sharded dir_path (some base_hash) ours_hash theirs_hash = do
      base_node ← load base_hash
      ours_node ← load ours_hash
      theirs_node ← load theirs_hash
      merge_loaded dir_path ours_hash theirs_hash base_node ours_node theirs_node

    -- `_merge_directory`, after the test for shards.
    unfoldable pub merge_children :
        Str → Option Str → (ours_hash theirs_hash : Str) → Exec Writer (Option Str)
    unfolding children_by_name base_by_name merge_names build_merged sorted_set
    merge_children dir_path base_hash ours_hash theirs_hash = do
      ours_children ← children_by_name ours_hash
      theirs_children ← children_by_name theirs_hash
      base_children ← base_by_name base_hash
      merged_children ←
          merge_names directory dir_path base_children ours_children theirs_children
            (sorted_set (keys base_children ++ (keys ours_children ++ keys theirs_children)))
      build_merged (ours_hash ∷ theirs_hash ∷ []) merged_children

    -- `_merge_directory`, when both sides have diverged from the base.
    unfoldable pub merge_apart : Directory
    unfolding merge_sharded merge_children conflict
    merge_apart dir_path base_hash none theirs_hash = conflict dir_path >> pure theirs_hash
    merge_apart dir_path base_hash (some ours) none = conflict dir_path >> pure (some ours)
    merge_apart dir_path base_hash (some ours) (some theirs) =
        merge_sharded dir_path base_hash ours theirs >>= elim [
          | some merged ↦ pure merged
          | none ↦ merge_children dir_path base_hash ours theirs
        ]

    -- `_merge_directory`
    unfoldable pub merge_step : Directory
    unfolding merge_apart
    merge_step dir_path base_hash ours_hash theirs_hash = elim (ours_hash == theirs_hash) [
      | true ↦ pure ours_hash
      | false ↦ elim (ours_hash == base_hash) [
        | true ↦ pure theirs_hash
        | false ↦ elim (theirs_hash == base_hash) [
          | true ↦ pure ours_hash
          | false ↦ merge_apart dir_path base_hash ours_hash theirs_hash
        ]
      ]
    ]

  -- The recursion of `_merge_directory`; the fuel counts the levels of the tree.
  unfoldable pub merge_directory : ℕ → Directory
  unfolding merge_step
  merge_directory zero dir_path base_hash ours_hash theirs_hash = lift diverge
  merge_directory (suc fuel) dir_path base_hash ours_hash theirs_hash =
      merge_step (merge_directory fuel) dir_path base_hash ours_hash theirs_hash

  -- `three_way_merge`, on an empty list of conflicts.
  unfoldable pub three_way_merge : ℕ → Option Str → Str → Str → Exec Writer Str
  unfolding merge_directory write_tree_bytes
  three_way_merge fuel base_tree ours_tree theirs_tree =
      modify (λ w. record w { conflicts = [] })
      >> merge_directory fuel [] base_tree (some ours_tree) (some theirs_tree)
      >>= elim [
        | some merged ↦ pure merged
        | none ↦ write_tree_bytes node_hash max_tree_entries [] []
      ]

  -- `merge_trees`
  unfoldable pub merge_trees : ℕ → Option Str → Str → Str → Exec Writer Str
  unfolding three_way_merge sorted
  merge_trees fuel base_tree ours_tree theirs_tree =
      three_way_merge fuel base_tree ours_tree theirs_tree >>= λ merged_tree.
      gets (λ w. w.conflicts) >>= elim [
        | [] ↦ pure merged_tree
        | path ∷ paths ↦ throw (merge_conflict (sorted (path ∷ paths)))
      ]
