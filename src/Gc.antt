-- ===== src/Gc.antt =====
-- `ReflakeRepository.gc` of core/repository.py: marks what the branch heads reach and sweeps the rest.
pub mod Sweep
pub mod Mark
pub mod Entries
pub mod Reachable
pub mod Harvest
pub mod Summary
pub mod Safety
use mathlib.Core.List.{reverse}
use reflake.Prelude.{Str, ℕ, ◌+◌, List, [], ◌∷◌, length, Option, Bool, true, false, ◌||◌, ltb}
use reflake.Domain.{CommitObject, Result, ok, raise, diverge, ◌>>=◌}
use reflake.Exec.{Exec, continue}
use reflake.Trees.Entry.{Entry}
use reflake.Gc.Sweep.{Objects, SweepState, sweep_kind}
use reflake.Gc.Mark.{pending_heads, mark, harvest}

-- One thing of each kind of object.
pub record PerKind (A : Type 0) : Type 0 where
  pub commit : A
  pub tree : A
  pub blob : A
  pub footer : A

-- `RepositoryObjectKind`
pub data ObjectKind : Type 0 where
  of_commit : ObjectKind
  of_tree : ObjectKind
  of_blob : ObjectKind
  of_footer : ObjectKind

abbrev pub select : {A : Type 0} → ObjectKind → PerKind A → A
select ObjectKind.of_commit all = all.commit
select ObjectKind.of_tree all = all.tree
select ObjectKind.of_blob all = all.blob
select ObjectKind.of_footer all = all.footer

pub record GcResult : Type 0 where
  pub reachable_commits : ℕ
  pub reachable_trees : ℕ
  pub reachable_blobs : ℕ
  pub reachable_footers : ℕ
  pub orphan_commits : ℕ
  pub orphan_trees : ℕ
  pub orphan_blobs : ℕ
  pub orphan_footers : ℕ
  pub pruned : Bool
  pub skipped_young : ℕ

-- The four reachable sets.
unfoldable pub reachable_sets :
    (Str → Result CommitObject)
    → (Str → Result (Option (List Entry)))
    → ℕ
    → ℕ
    → List (Option Str)
    → Result (PerKind (List Str))
unfolding mark harvest pending_heads
reachable_sets read_commit load_entries tree_fuel fuel heads = do
  (commits, trees) ←
      mark read_commit load_entries tree_fuel fuel [] [] (reverse (pending_heads heads))
  (blobs, footers) ← harvest read_commit load_entries trees [] []
  ok (record { commit = commits; tree = trees; blob = blobs; footer = footers })

-- The four sweeps. Each deletes objects of its own kind only.
unfoldable pub sweeps :
    PerKind (List Str) → Bool → ℕ → PerKind (List (Str × ℕ)) → PerKind Objects → PerKind SweepState
unfolding sweep_kind
sweeps reachable dry_run young_cutoff inventory stored = record {
  commit = sweep_kind reachable.commit dry_run young_cutoff inventory.commit stored.commit;
  tree = sweep_kind reachable.tree dry_run young_cutoff inventory.tree stored.tree;
  blob = sweep_kind reachable.blob dry_run young_cutoff inventory.blob stored.blob;
  footer = sweep_kind reachable.footer dry_run young_cutoff inventory.footer stored.footer;
}

abbrev pub objects_of : PerKind SweepState → PerKind Objects
objects_of s = record {
  commit = s.commit.objects;
  tree = s.tree.objects;
  blob = s.blob.objects;
  footer = s.footer.objects;
}

abbrev pub summary : PerKind (List Str) → PerKind SweepState → GcResult
summary reachable s = record {
  reachable_commits = length reachable.commit;
  reachable_trees = length reachable.tree;
  reachable_blobs = length reachable.blob;
  reachable_footers = length reachable.footer;
  orphan_commits = s.commit.orphans;
  orphan_trees = s.tree.orphans;
  orphan_blobs = s.blob.orphans;
  orphan_footers = s.footer.orphans;
  pruned =
      ltb 0 s.commit.deleted
      || ltb 0 s.tree.deleted
      || ltb 0 s.blob.deleted
      || ltb 0 s.footer.deleted;
  skipped_young =
      s.commit.skipped_young + s.tree.skipped_young + s.blob.skipped_young + s.footer.skipped_young;
}

-- The heads are those of the branches; the inventory is what the source of it lists for each kind.
unfoldable pub gc :
    (Str → Result CommitObject)
    → (Str → Result (Option (List Entry)))
    → ℕ
    → ℕ
    → List (Option Str)
    → Bool
    → ℕ
    → PerKind (List (Str × ℕ))
    → Exec (PerKind Objects) GcResult
unfolding reachable_sets sweeps
gc read_commit load_entries tree_fuel fuel heads dry_run young_cutoff inventory =
    continue (reachable_sets read_commit load_entries tree_fuel fuel heads) λ reachable stored.
      let s = sweeps reachable dry_run young_cutoff inventory stored in
      (ok (summary reachable s), objects_of s)
