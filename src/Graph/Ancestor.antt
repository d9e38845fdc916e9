-- ===== src/Graph/Ancestor.antt =====
-- `is_ancestor_commit` of core/repository_support.py.
pub mod Push
pub mod Correct
use reflake.Prelude.{
  Str, ℕ, zero, suc, List, [], ◌∷◌, Option, none, some, Bool, true, false, ◌&&◌, contains, ◌==◌,
  leb, ltb, if◌then◌else◌, list_eq, nat_eq,
}
use reflake.Domain.{CommitObject, Result, ok, diverge, ◌>>=◌}
use reflake.Graph.Generation.{Memo, of}

pub record Search : Type 0 where
  pub seen : List Str
  pub stack : List Str
  pub memo : Memo

-- `for parent_id in commit.parents: if parent_id not in seen: seen.add(...); stack.append(...)`
unfoldable pub push_parents : List Str → Search → Search
push_parents [] s = s
push_parents (p ∷ ps) s =
    push_parents ps
      (if contains s.seen p then s else record s { seen = p ∷ s.seen; stack = p ∷ s.stack })

-- `0 < generation <= target_generation`, where `none` is the target -1.
unfoldable pub is_pruned : Option ℕ → ℕ → Bool
is_pruned none g = false
is_pruned (some target) g = ltb 0 g && leb g target

module _ (read : Str → Result (Option CommitObject)) (depth : ℕ) where
  -- The loop's body after its test for the ancestor; `id` has been popped.
  unfoldable pub expand : Option ℕ → Str → Search → Result Search
  unfolding push_parents is_pruned
  expand target id s = read id >>= elim [
    | none ↦ ok s
    | some commit ↦ of read depth id s.memo >>= λ (g, memo').
        let t = record s { memo = memo' } in
        ok (if is_pruned target g then t else push_parents commit.parents t)
  ]

  unfoldable pub search_ancestor : ℕ → Option ℕ → Str → Search → Result Bool
  unfolding expand
  search_ancestor zero target ancestor s = diverge
  search_ancestor (suc fuel) target ancestor s = elim s.stack [
    | [] ↦ ok false
    | id ∷ rest ↦ elim (id == ancestor) [
      | true ↦ ok true
      | false ↦
          expand target id (record s { stack = rest }) >>= search_ancestor fuel target ancestor
    ]
  ]

  -- `generations.of(ancestor) if ancestor_commit is not None else -1`
  unfoldable pub target_generation : Str → Result (Option ℕ × Memo)
  target_generation ancestor = read ancestor >>= elim [
    | none ↦ ok (none, [])
    | some commit ↦ of read depth ancestor [] >>= λ (g, memo). ok (some g, memo)
  ]

  unfoldable pub is_ancestor_commit : ℕ → Str → Str → Result Bool
  unfolding search_ancestor target_generation
  is_ancestor_commit fuel ancestor descendant = elim (ancestor == descendant) [
    | true ↦ ok true
    | false ↦ target_generation ancestor >>= λ (target, memo).
        search_ancestor fuel target ancestor
          (record { seen = descendant ∷ []; stack = descendant ∷ []; memo = memo })
  ]
