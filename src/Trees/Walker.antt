-- ===== src/Trees/Walker.antt =====
-- The streaming walks of `TreeWalker` (core/objects/query.py) over a stack of frames.
pub mod Flatten
pub mod Round
pub mod Correct
pub mod Prefix
use reflake.Prelude.{
  Str, ℕ, zero, suc, ◌+◌, List, [], ◌∷◌, ◌++◌, map, Option, none, some, Bool, true, false, not,
  ◌&&◌, ◌||◌, ◌==◌, drop, starts_with, strip_by, slash, lit, if◌then◌else◌, list_eq, nat_eq,
}
use reflake.Domain.{Result, ok, raise, diverge, unknown_tree, ◌>>=◌}
use reflake.Trees.Entry.{Entry, EntryKind, is_subtree}

-- A tree hash, the path of the node, and the index to resume at.
pub record Frame : Type 0 where
  pub current_hash : Str
  pub prefix : Str
  pub resume_index : ℕ

unfoldable pub child_prefix : Str → Entry → Str
child_prefix prefix subtree = elim subtree.kind [
  | EntryKind.shard ↦ prefix
  | _ ↦ (prefix ++ subtree.path) ++ lit "/"
]

-- `matches_prefix`
unfoldable pub matches_prefix : Str → Str → Bool
unfolding starts_with
matches_prefix path normalized_prefix =
    path == normalized_prefix || starts_with path (normalized_prefix ++ lit "/")

-- `not normalized or matches_prefix(path, normalized)`
unfoldable pub is_wanted : Str → Str → Bool
unfolding matches_prefix
is_wanted normalized path = normalized == [] || matches_prefix path normalized

-- `normalized and not (child_prefix.startswith(f"{normalized}/") or normalized.startswith(child_prefix))`
unfoldable pub is_skipped : Str → Str → Bool
is_skipped normalized child =
    not (normalized == [])
    && not (starts_with child (normalized ++ lit "/") || starts_with normalized child)

-- The inner loop: what it yields, and the subtree that ends it with its index.
unfoldable pub scan : (Str → Bool) → Str → ℕ → List Entry → List (Str × Entry) × Option (Entry × ℕ)
scan wanted prefix index [] = ([], none)
scan wanted prefix index (entry ∷ entries) =
    let (found, end) = scan wanted prefix (index + 1) entries in
    if is_subtree entry then ([], some (entry, index)) else (
      if wanted (prefix ++ entry.path) then (prefix ++ entry.path, entry) ∷ found else found,
      end,
    )

-- What is pushed after the inner loop, the child on top.
unfoldable pub push_frames : (Str → Bool) → Frame → Option (Entry × ℕ) → List Frame → List Frame
unfolding child_prefix
push_frames skipped frame none stack = stack
push_frames skipped frame (some (subtree, index)) stack =
    let resumed : List Frame = record frame { resume_index = index + 1 } ∷ stack in
    if skipped (child_prefix frame.prefix subtree)
    then resumed
    else record {
      current_hash = subtree.hash;
      prefix = child_prefix frame.prefix subtree;
      resume_index = 0;
    }
      ∷ resumed

-- `_load_or_raise`
unfoldable pub load_or_raise : (Str → Result (Option (List Entry))) → Str → Result (List Entry)
load_or_raise load tree_hash =
    load tree_hash >>= elim [ none ↦ raise (unknown_tree tree_hash) | some entries ↦ ok entries ]

module _ (load : Str → Result (List Entry)) (wanted skipped : Str → Bool) where
  -- The loop that both walks have; without a prefix, all is wanted and nothing skipped.
  unfoldable pub walk_frames : ℕ → List Frame → Result (List (Str × Entry))
  unfolding scan push_frames
  walk_frames zero stack = diverge
  walk_frames (suc fuel) stack = elim stack [
    | [] ↦ ok []
    | frame ∷ rest ↦ load frame.current_hash >>= λ entries.
        let (found, end) =
          scan wanted frame.prefix frame.resume_index (drop frame.resume_index entries) in
        walk_frames fuel (push_frames skipped frame end rest) >>= λ more. ok (found ++ more)
  ]

abbrev pub root_frame : Str → Frame
root_frame tree_hash = record { current_hash = tree_hash; prefix = []; resume_index = 0 }

-- `_iter_entries`
unfoldable pub iter_entries : (Str → Result (List Entry)) → ℕ → Str → Result (List (Str × Entry))
unfolding walk_frames
iter_entries load fuel tree_hash =
    walk_frames load (λ path. true) (λ child. false) fuel (root_frame tree_hash ∷ [])

-- `_leaf_to_manifest`
abbrev pub leaf_to_manifest : Str × Entry → Entry
leaf_to_manifest (path, entry) = record entry { path = path }

-- `iter_all_entries`
unfoldable pub iter_all_entries : (Str → Result (List Entry)) → ℕ → Str → Result (List Entry)
unfolding iter_entries
iter_all_entries load fuel tree_hash =
    iter_entries load fuel tree_hash >>= λ found. ok (map leaf_to_manifest found)

-- `iter_entries_for_prefix`
unfoldable pub iter_entries_for_prefix :
    (Str → Result (List Entry)) → ℕ → Str → Str → Result (List Entry)
unfolding walk_frames is_wanted is_skipped
iter_entries_for_prefix load fuel tree_hash logical_prefix =
    let normalized = strip_by (λ c. c == slash) logical_prefix in
    walk_frames load (is_wanted normalized) (is_skipped normalized) fuel (root_frame tree_hash ∷ [])
    >>= λ found. ok (map leaf_to_manifest found)
