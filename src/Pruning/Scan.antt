-- ===== src/Pruning/Scan.antt =====
-- `plan_pruned_scan` of core/query/pruning.py. The statistics of a footer are read and parsed by an
-- argument, which answers None where the source skips the entry.
use reflake.Prelude.{Str, ℕ, List, [], ◌∷◌, Option, none, some, length}
use reflake.Domain.{Result, ok, ◌>>=◌}
use reflake.Trees.Entry.{Entry}
use reflake.Trees.Walker.{iter_entries_for_prefix}
use reflake.Pruning.{RowGroupStats, Predicate, prune_row_groups}

pub record PrunedFileScan : Type 0 where
  pub path : Str
  pub footer_hash : Option Str
  pub total_row_groups : ℕ
  pub kept_row_groups : List ℕ
  pub pruned_row_groups : List ℕ

module _ (footer_stats : Str → Result (Option (List RowGroupStats)))
    (predicates : List Predicate) where
  unfoldable pub plan_entries : List Entry → Result (List PrunedFileScan)
  unfolding prune_row_groups
  plan_entries [] = ok []
  plan_entries (entry ∷ entries) = elim entry.footer [
    | none ↦ plan_entries entries
    | some footer ↦ footer_stats footer >>= elim [
      | none ↦ plan_entries entries
      | some stats ↦ plan_entries entries >>= λ rest.
          let result = prune_row_groups stats predicates in
          ok (
            record {
              path = entry.path;
              footer_hash = entry.footer;
              total_row_groups = length stats;
              kept_row_groups = result.kept;
              pruned_row_groups = result.pruned;
            }
            ∷ rest)
    ]
  ]

  unfoldable pub plan_pruned_scan :
      (Str → Result (List Entry)) → ℕ → Str → Str → Result (List PrunedFileScan)
  unfolding plan_entries iter_entries_for_prefix
  plan_pruned_scan load fuel tree_hash prefix =
      iter_entries_for_prefix load fuel tree_hash prefix >>= plan_entries
