-- ===== src/Gc/Sweep.antt =====
-- `ReflakeRepository._sweep_kind`: deletes the orphans of one kind that are old enough.
pub mod Correct
use reflake.Prelude.{
  Str, ℕ, suc, ◌+◌, List, [], ◌∷◌, ◌++◌, length, Bool, true, false, not, ◌&&◌, ◌||◌, contains, ◌==◌,
  leb, if◌then◌else◌, list_eq, nat_eq,
}
use reflake.Prelude.Dict.{Dict, remove}

-- The objects of one kind, each with its time of modification in nanoseconds; 0 is unknown.
abbrev pub Objects : Type 0
Objects = Dict Str ℕ

-- `LocalObjectStore.delete_objects`: the number of ids, and the objects that are left.
unfoldable pub delete_objects : List Str → Objects → ℕ × Objects
delete_objects [] objects = (0, objects)
delete_objects (id ∷ ids) objects =
    let (n, left) = delete_objects ids (remove objects id) in (suc n, left)

-- The local variables of the sweep, and the objects.
pub record SweepState : Type 0 where
  pub stored : ℕ
  pub orphans : ℕ
  pub skipped_young : ℕ
  pub deleted : ℕ
  pub batch : List Str
  pub objects : Objects

abbrev pub start : Objects → SweepState
start objects = record {
  stored = 0;
  orphans = 0;
  skipped_young = 0;
  deleted = 0;
  batch = [];
  objects = objects;
}

-- `mtime_ns == 0 or mtime_ns >= young_cutoff`
abbrev pub is_young : ℕ → ℕ → Bool
is_young young_cutoff mtime_ns = mtime_ns == 0 || leb young_cutoff mtime_ns

-- `deleted += self.store.delete_objects(kind, batch)`, and the batch is empty again.
unfoldable pub flush : SweepState → SweepState
flush s =
    let (n, left) = delete_objects s.batch s.objects in
    record s { deleted = s.deleted + n; batch = []; objects = left }

-- `_DELETE_BATCH_SIZE`
abbrev pub delete_batch_size : ℕ
delete_batch_size = 1000

unfoldable pub append_batch : Str → SweepState → SweepState
unfolding flush
append_batch id s =
    let s' : SweepState = record s { batch = s.batch ++ id ∷ [] } in
    if leb delete_batch_size (length s'.batch) then flush s' else s'

-- `if batch: deleted += self.store.delete_objects(kind, batch)`
unfoldable pub flush_rest : SweepState → SweepState
unfolding flush
flush_rest s = elim s.batch [ [] ↦ s | _ ∷ _ ↦ flush s ]

module _ (reachable : List Str) (dry_run : Bool) (young_cutoff : ℕ) where
  -- The loop's body.
  unfoldable pub sweep_object : Str × ℕ → SweepState → SweepState
  unfolding append_batch
  sweep_object (object_id, mtime_ns) s =
      let s : SweepState = record s { stored = s.stored + 1 } in
      if contains reachable object_id
      then s
      else let s : SweepState = record s { orphans = s.orphans + 1 } in
        if is_young young_cutoff mtime_ns
        then record s { skipped_young = s.skipped_young + 1 }
        else if dry_run
        then s
        else append_batch object_id s

  unfoldable pub sweep_objects : List (Str × ℕ) → SweepState → SweepState
  unfolding sweep_object
  sweep_objects [] s = s
  sweep_objects (o ∷ inventory) s = sweep_objects inventory (sweep_object o s)

  -- The whole of `_sweep_kind`, over what the inventory lists.
  unfoldable pub sweep_kind : List (Str × ℕ) → Objects → SweepState
  unfolding sweep_objects flush_rest
  sweep_kind inventory objects = flush_rest (sweep_objects inventory (start objects))
