-- ===== src/Lib.antt =====
-- Reflake is a version-control system for data: commits, trees of entries and blobs in an object
-- store, branch refs that move by compare-and-set, and a client state of HEAD, branch snapshots, a
-- reflog and a stage. This library models the parts below and proves what they do. Paths are from
-- the repository's root.
--
-- Prelude            Names of the libraries, Boolean tests, lists, Python's equality, text and dict.
-- Domain             src/reflake/core/domain: values and errors; a call returns, raises or diverges.
-- Exec               Methods that change a state and may raise; what was written stays written.
-- Cache              `TreeCache` with `TreeWalker._load` of src/reflake/core/objects/query.py, and
--                    `_BoundedCache` with `read_commit` of services/refs.py. Cache.Correct: answers
--                    and size.
-- Paths              Path and branch-name rules of src/reflake/core/repository_support.py:
--                    `_sanitize_path_component`, `validate_branch_name`, `matches_logical_path` and
--                    `move_logical_path` under their own names. Paths.Move: matching and moving.
-- Graph.Generation   `_GenerationProvider` of repository_support.py; what a history is.
-- Graph.Ancestor     `is_ancestor_commit` of repository_support.py.
-- Graph.MergeBase    `merge_base_commit` of repository_support.py; the heap is a sorted list.
-- Walk               The loop that collects all that is reachable, of repository_sync.py,
--                    repository.py and services/tree_inspect.py.
-- Refs               src/reflake/core/services/refs.py over objects/local.py and client_state.py: the
--                    shared store (Refs.Store), `RefManager` (Refs.Manager), compare-and-set
--                    (Refs.Cas), fast-forwards (Refs.FastForward) and several clients at once
--                    (Refs.Clients), whose attempts are steps of the shared store in any order.
-- Trees              `Entry` of src/reflake/core/entry_codec.py, and the streaming walks of
--                    `TreeWalker` in objects/query.py against a recursive flattening; Trees.Lookup: the lookups.
-- Trees.Codec        `Entry.__post_init__`, `validate_leaf`, `serialize` and `parse` of
--                    src/reflake/core/entry_codec.py, on decoded JSON arrays. Trees.Codec.Round and
--                    Trees.Codec.Print: the round trips. Trees.Codec.Valid: what is parsed.
-- Trees.Node         `parse_tree_object` and `validate_tree_node` of src/reflake/core/objects/tree.py.
--                    A node's payload is the list of the entries that its lines spell, so writing
--                    JSON text and reading it back are left out; that `str.splitlines` breaks a line
--                    and the checks of an entry on reading are in, as the checks before a node is
--                    written have neither. The empty payload and a lone newline are one node.
-- Trees.Writer       `_write_tree_bytes` and `_build_children` of src/reflake/core/services/tree.py.
--                    Trees.Writer.Stored and Trees.Writer.Build: what is stored;
--                    Trees.Writer.Ends: the levels of shards.
-- Trees.Merge        `merge_trees`, `three_way_merge` and their helpers of
--                    src/reflake/core/services/tree.py. Trees.Merge.Names, .View: names and paths;
--                    .Growth: what a merge keeps; .Child, .Loop, .Read, .Union, .Apart, .Sound: what
--                    it gives; .Depth, .Progress, .Ends: that it ends; .Deleted: names that both
--                    sides deleted.
-- Gc                 `ReflakeRepository.gc` and `_sweep_kind` of src/reflake/core/repository.py: Gc.Mark
--                    and Gc.Harvest for what is marked, Gc.Reachable for what the heads reach by
--                    the entries and parents themselves, Gc.Entries for the entries, Gc.Mark.Distinct for the
--                    sets as lists, Gc.Summary for the result,
--                    Gc.Sweep for the deletion, Gc.Safety for the whole.
-- Repository         `reset` and `merge` of src/reflake/core/repository.py, and
--                    `write_commit_object` of services/tree.py; the merge of trees, the hash and the
--                    clock are arguments. Repository.Reset: reset and the writing of a commit.
--                    Repository.Generations: the generation of a new commit.
--                    Repository.Log: `log`, whose answers come with their generations.
-- Pruning            `_compare`, `_possible` and `prune_row_groups` of
--                    src/reflake/core/query/pruning.py; a number is an int. Pruning.Order and
--                    Pruning.Compare: the order of values. Pruning.Sound: what is pruned.
--                    Pruning.Scan: the plan of a scan.
-- Sync               The fast-forward tests of push and pull of src/reflake/core/repository_sync.py.
--                    Sync.Verify: what a push is let through for.
-- Samples            A small repository, and the theorems at its commits and trees.
--
-- The parts meet where the program's do: `RefManager.fast_forward_branch` asks the ancestor search,
-- which asks the generation provider, and updates the ref by the store's compare-and-set; the
-- collection reads commits and tree nodes, and walks both with the collecting loop.
--
-- Text is a list of code points, and a dict is an association list. What is read from the object
-- store is an argument of the definitions: `read_commit` and `load_entries` answer or raise. A loop
-- takes fuel, the number of its rounds or of a tree's levels, and the generation provider the depth of its recursion; the
-- theorems state how much is enough, by the number of commits, of edges or of frames. The digest of a
-- node is an argument too, and MAX_TREE_ENTRIES; where it matters, a theorem assumes that different
-- nodes have different digests. The store's
-- lock makes a compare-and-set one step. The store's refs are a dict of branch names and commit ids:
-- ids have no white space around them, which `read_branch_ref` would strip, and of two names where one
-- is the folder of the other only one is in use, as the file system would refuse the second.
--
-- Not modelled: input and output, hashing, the network stores, Parquet footers, the command line and
-- the configuration; and, so far, the splicing of trees, staging and
-- the transfers of push, pull and fetch.
pub mod Prelude
pub mod Cache
pub mod Domain
pub mod Paths
pub mod Walk
pub mod Graph
pub mod Exec
pub mod Refs
pub mod Trees
pub mod Gc
pub mod Samples
pub mod Repository
pub mod Pruning
pub mod Sync
