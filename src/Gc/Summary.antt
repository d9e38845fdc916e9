-- ===== src/Gc/Summary.antt =====
-- What `ReflakeRepository.gc` of core/repository.py is to return, by the live sets and the inventory.
use reflake.Prelude.{
  Str, ℕ, ◌+◌, List, length, ◌≡◌, refl, Bool, not, ◌&&◌, ◌||◌, ◌==◌, contains, leb, ltb, true,
  false, ap, ◌∙◌, if◌then◌else◌, list_eq, nat_eq, arith,
}
use reflake.Gc.{GcResult, PerKind, ObjectKind, select, sweeps, summary}
use reflake.Gc.Sweep.{Objects, sweep_kind}
use reflake.Gc.Sweep.Correct.{count, orphan, sweep_kind-counts}

-- Something is deleted exactly if this is no dry run and not all orphans are young.
deleted_some :
    (dry_run : Bool) (deleted orphans young : ℕ)
    → deleted + (if dry_run then orphans else young) ≡ orphans
    → ltb 0 deleted ≡ (not dry_run && ltb young orphans)
deleted_some true deleted orphans young h = ground (arith, h)
deleted_some false deleted orphans young h = ground (arith, h)

module _ (live : PerKind (List Str)) (dry_run : Bool) (young_cutoff : ℕ)
    (inventory : PerKind (List (Str × ℕ))) where
  -- The orphans among the inventory of a kind.
  abbrev pub orphans_of : ObjectKind → ℕ
  orphans_of kind =
      count (select kind live) dry_run young_cutoff (orphan (select kind live) dry_run young_cutoff)
        (select kind inventory)

  -- A line whose object is not reachable, and of unknown age or not older than the cutoff.
  abbrev pub is_young_line : List Str → Str × ℕ → Bool
  is_young_line reachable (object_id, mtime_ns) =
      not (contains reachable object_id) && (mtime_ns == 0 || leb young_cutoff mtime_ns)

  -- The young ones among those.
  abbrev pub young_of : ObjectKind → ℕ
  young_of kind =
      count (select kind live) dry_run young_cutoff (is_young_line (select kind live))
        (select kind inventory)

  -- What the collection is to return.
  abbrev pub counted : GcResult
  counted = record {
    reachable_commits = length live.commit;
    reachable_trees = length live.tree;
    reachable_blobs = length live.blob;
    reachable_footers = length live.footer;
    orphan_commits = orphans_of ObjectKind.of_commit;
    orphan_trees = orphans_of ObjectKind.of_tree;
    orphan_blobs = orphans_of ObjectKind.of_blob;
    orphan_footers = orphans_of ObjectKind.of_footer;
    pruned =
        (not dry_run && ltb (young_of ObjectKind.of_commit) (orphans_of ObjectKind.of_commit))
        || (not dry_run && ltb (young_of ObjectKind.of_tree) (orphans_of ObjectKind.of_tree))
        || (not dry_run && ltb (young_of ObjectKind.of_blob) (orphans_of ObjectKind.of_blob))
        || (not dry_run && ltb (young_of ObjectKind.of_footer) (orphans_of ObjectKind.of_footer));
    skipped_young =
        young_of ObjectKind.of_commit
        + young_of ObjectKind.of_tree
        + young_of ObjectKind.of_blob
        + young_of ObjectKind.of_footer;
  }

  kind_counts :
      (kind : ObjectKind) (objects : Objects)
      → let t =
          sweep_kind (select kind live) dry_run young_cutoff (select kind inventory) objects in
        (t.orphans ≡ orphans_of kind)
        × (t.skipped_young ≡ young_of kind)
        × (ltb 0 t.deleted ≡ (not dry_run && ltb (young_of kind) (orphans_of kind)))
  kind_counts kind objects =
      let t = sweep_kind (select kind live) dry_run young_cutoff (select kind inventory) objects in
      let (_, o, y, d) =
        sweep_kind-counts (select kind live) dry_run young_cutoff (select kind inventory) objects in
      (
        o,
        y,
        deleted_some dry_run _ _ _ d
            ∙ ap (λ n. not dry_run && ltb n t.orphans) y
            ∙ ap (λ n. not dry_run && ltb (young_of kind) n) o,
      )

  pub summary-counted :
      (stored : PerKind Objects)
      → summary live (sweeps live dry_run young_cutoff inventory stored) ≡ counted
  unfolding sweeps
  summary-counted stored =
      let (co, cy, cd) = kind_counts ObjectKind.of_commit stored.commit in
      let (to, ty, td) = kind_counts ObjectKind.of_tree stored.tree in
      let (bo, by, bd) = kind_counts ObjectKind.of_blob stored.blob in
      let (fo, fy, fd) = kind_counts ObjectKind.of_footer stored.footer in
      rw (co, cy, cd, to, ty, td, bo, by, bd, fo, fy, fd) refl
