-- ===== src/Gc/Safety.antt =====
-- The whole collection returns, deletes nothing that is live, and leaves no old orphan.
use reflake.Prelude.{Str, List, [], In, ◌≡◌, ◌≢◌, ◌↔◌, Option, some, list_eq, nat_eq}
use reflake.Domain.{CommitObject, Result, ok}
use reflake.Trees.Entry.{Entry}
use reflake.Gc.{PerKind, ObjectKind}
use reflake.Gc.Mark.{pending_heads, next_commits, next_trees}
use reflake.Gc.Mark.Distinct.{IsDistinct}
use reflake.Gc.Entries.{IsSubtree, IsContent}
use reflake.Gc.Reachable.{CommitReach, TreeReach}

module _ (read_commit : Str → Result CommitObject)
    (load_entries : Str → Result (Option (List Entry))) (heads : List (Option Str)) where
  abbrev commits_of : Str → Result (List Str)
  commits_of = next_commits read_commit load_entries

  abbrev trees_of : Str → Result (List Str)
  trees_of = next_trees read_commit load_entries

  -- What is live: the commits that the heads reach over parents, ...
  abbrev pub LiveCommit : Str → Type 0
  LiveCommit = CommitReach read_commit load_entries (pending_heads heads)

  -- ... the tree nodes that those reach over entries of directories and shards, ...
  abbrev pub LiveTree : Str → Type 0
  LiveTree t =
      (x : Str) × (c : CommitObject) × LiveCommit x
      × (read_commit x ≡ ok c)
      × TreeReach read_commit load_entries c.tree t

  -- ... the blobs that an entry of those has for its content, ...
  abbrev pub LiveBlob : Str → Type 0
  LiveBlob b =
      (t : Str) × (es : List Entry) × (e : Entry) × LiveTree t
      × (load_entries t ≡ ok (some es))
      × In e es
      × IsContent e
      × (e.hash ≡ b)
      × (b ≢ [])

  -- ... and the footers that an entry of those names, which is no directory's and no shard's.
  abbrev pub LiveFooter : Str → Type 0
  LiveFooter b =
      (t : Str) × (es : List Entry) × (e : Entry) × LiveTree t
      × (load_entries t ≡ ok (some es))
      × In e es
      × (IsSubtree e → ⊥)
      × (e.footer ≡ some b)
      × (b ≢ [])

  abbrev pub Live : ObjectKind → Str → Type 0
  Live ObjectKind.of_commit a = LiveCommit a
  Live ObjectKind.of_tree a = LiveTree a
  Live ObjectKind.of_blob a = LiveBlob a
  Live ObjectKind.of_footer a = LiveFooter a

  -- The sets hold what is live and nothing else, each member once.
  pub record IsLive (sets : PerKind (List Str)) : Type 0 where
    pub commits : (x : Str) → In x sets.commit ↔ LiveCommit x
    pub trees : (t : Str) → In t sets.tree ↔ LiveTree t
    pub blobs : (b : Str) → In b sets.blob ↔ LiveBlob b
    pub footers : (b : Str) → In b sets.footer ↔ LiveFooter b
    pub commits_once : IsDistinct sets.commit
    pub trees_once : IsDistinct sets.tree
    pub blobs_once : IsDistinct sets.blob
    pub footers_once : IsDistinct sets.footer
