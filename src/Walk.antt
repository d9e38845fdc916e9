-- ===== src/Walk.antt =====
-- The loop that collects everything reachable, which the program writes out four times:
--   while stack: current = stack.pop(); if current in seen: continue
--                seen.add(current); stack.extend(next(current))
-- `ReflakeRepository.log` and `gc` (core/repository.py) run it over the parents of a commit,
-- `_collect_commits_to_push` (core/repository_sync.py) too, and `TreeInspector.iter_tree_hashes`
-- (core/services/tree_inspect.py) over the subtrees of a tree node.
pub mod Correct
use mathlib.Core.List.{reverse}
use reflake.Prelude.{
  Str, ℕ, zero, suc, List, [], ◌∷◌, ◌++◌, In, ◌≡◌, contains, if◌then◌else◌, list_eq, nat_eq,
}
use reflake.Domain.{Result, ok, raise, diverge, ◌>>=◌}

module _ (next : Str → Result (List Str)) where
  -- One round: `current` has been popped, and `rest` is what is left of the stack, top first.
  unfoldable pub visit : Str → List Str → List Str → Result (List Str × List Str)
  visit current seen rest =
      if contains seen current
      then ok (seen, rest)
      else (do more ← next current; ok (current ∷ seen, reverse more ++ rest))

  -- The whole loop. The set `seen` is a list, the latest member first.
  unfoldable pub walk : ℕ → List Str → List Str → Result (List Str)
  unfolding visit
  walk zero seen stack = diverge
  walk (suc fuel) seen stack = elim stack [
    | [] ↦ ok seen
    | current ∷ rest ↦ visit current seen rest >>= λ (seen', stack'). walk fuel seen' stack'
  ]

  -- What the loop is meant to collect: the roots, and the successors of what is collected.
  pub data Reach (roots : List Str) : Str → Type 0 where
    root : {x : Str} → In x roots → Reach roots x
    edge :
        {x y : Str} {more : List Str} → Reach roots x → next x ≡ ok more → In y more → Reach roots y
