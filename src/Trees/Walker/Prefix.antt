-- ===== src/Trees/Walker/Prefix.antt =====
-- `iter_entries` and `iter_entries_for_prefix` against the flattening of the tree.
use reflake.Prelude.{
  Str, ℕ, suc, ◌+◌, List, [], ◌∷◌, ◌++◌, ◌≡◌, refl, ap, ◌∙◌, Bool, true, false, list_eq, nat_eq,
  arith,
}
use reflake.Domain.{Result, ok}
use reflake.Trees.Entry.{Entry}
use reflake.Trees.Walker.{walk_frames, root_frame, iter_entries}
use reflake.Trees.Walker.Flatten.{Found, flatten, filter_paths, prepend}
use reflake.Trees.Walker.Correct.{node_lem}

module _ (load : Str → Result (List Entry)) where
  walk_frames-nil :
      (wanted skipped : Str → Bool) (fuel : ℕ)
      → walk_frames load wanted skipped (suc fuel) [] ≡ ok []
  unfolding walk_frames
  walk_frames-nil wanted skipped fuel = refl

  append_nil : (xs : Found) → xs ++ [] ≡ xs
  append_nil [] = refl
  append_nil (x ∷ xs) = ap (λ l. x ∷ l) (append_nil xs)

  -- From the root, with enough fuel, the walk ends with the wanted leaves.
  walk_root :
      (wanted skipped : Str → Bool)
      → ((p rest : Str) → skipped p ≡ true → wanted (p ++ rest) ≡ false)
      → (depth : ℕ) (tree_hash : Str) (out : Found) → flatten load depth tree_hash [] ≡ ok out
      → (rounds : ℕ) × ((more : ℕ)
          → walk_frames load wanted skipped (rounds + more) (root_frame tree_hash ∷ [])
            ≡ ok (filter_paths wanted out))
  walk_root wanted skipped sound depth tree_hash out e =
      let ((rounds, f), _) = node_lem load wanted skipped sound depth tree_hash [] out e in
      (
        suc (suc rounds),
        λ more.
            f (suc (suc rounds) + more) (suc more) [] (omega arith)
            ∙ ap (prepend (filter_paths wanted out)) (walk_frames-nil wanted skipped more)
            ∙ ap ok (append_nil (filter_paths wanted out)),
      )

  filter_paths-all : (out : Found) → filter_paths (λ path. true) out ≡ out
  filter_paths-all [] = refl
  filter_paths-all (x ∷ out) = ap (λ l. x ∷ l) (filter_paths-all out)

  -- If a tree can be flattened, then with a number of rounds or any more the walk over its frames ends and yields the
  -- flattening: every leaf once, with its full path, in the order of the nodes.
  pub iter_entries_lem :
      (depth : ℕ) (tree_hash : Str) (out : Found)
      → flatten load depth tree_hash [] ≡ ok out
      → (rounds : ℕ) × ((more : ℕ) → iter_entries load (rounds + more) tree_hash ≡ ok out)
  unfolding iter_entries
  iter_entries_lem depth tree_hash out e =
      let (rounds, f) =
        walk_root (λ path. true) (λ child. false) (λ p rest h. cc) depth tree_hash out e in
      (rounds, λ more. f more ∙ ap ok (filter_paths-all out))
