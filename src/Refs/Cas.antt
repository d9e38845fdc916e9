-- ===== src/Refs/Cas.antt =====
-- Updates of a branch ref are compare-and-set: none is lost, and none touches another branch.
use reflake.Prelude.{
  ◌⊎◌, inl, inr, Str, String, [], ◌∷◌, ◌++◌, Option, none, some, true, false, Option-cases, ◌≡◌,
  ◌≢◌, refl, ◌==◌, ==_iff, if◌then◌else◌, list_eq, nat_eq, option_eq, arith,
}
use reflake.Prelude.Dict.{get-put, get-put_self}
use reflake.Domain.{ok, raise, ref_conflict}
use reflake.Refs.Store.{
  Store, World, ReflogLine, truthy, read_branch_ref, commit_id_of, write_branch_ref,
  compare_and_set_branch_ref, read_branch_snapshot, write_branch_snapshot, append_reflog,
}
use reflake.Refs.Manager.{refresh, update_branch_ref}

-- The commit that a branch points to in the shared store.
abbrev pub head_of : Store → Str → Option Str
head_of s branch = commit_id_of (read_branch_ref s branch)

pub truthy-truthy : (o : Option Str) → truthy (truthy o) ≡ truthy o
unfolding truthy
truthy-truthy none = refl
truthy-truthy (some []) = refl
truthy-truthy (some (c ∷ s)) = refl

pub head_of-write_branch_ref :
    (s : Store) (b j : Str) (c : Option Str)
    → head_of (write_branch_ref s b c) j ≡ (if j == b then truthy c else head_of s j)
unfolding write_branch_ref read_branch_ref commit_id_of
head_of-write_branch_ref s b j c = ground (arith, get-put s.heads b j (truthy c), truthy-truthy c)

read_branch_ref-write_branch_ref :
    (s : Store) (b : Str) (c : Option Str)
    → read_branch_ref (write_branch_ref s b c) b
      ≡ some (record { branch = b; commit_id = truthy c })
unfolding write_branch_ref read_branch_ref
read_branch_ref-write_branch_ref s b c =
    simp (read_branch_ref, get-put_self s.heads b (truthy c), truthy-truthy c)

compare_and_set_hit :
    (s : Store) (b : Str) (c expected : Option Str)
    → head_of s b ≡ expected
    → compare_and_set_branch_ref s b c expected ≡ (true, write_branch_ref s b c)
unfolding compare_and_set_branch_ref
compare_and_set_hit s b c expected h = rw ((==_iff (head_of s b) expected).1 h)

compare_and_set_miss :
    (s : Store) (b : Str) (c expected : Option Str)
    → head_of s b ≢ expected
    → compare_and_set_branch_ref s b c expected ≡ (false, s)
unfolding compare_and_set_branch_ref
compare_and_set_miss s b c expected h = ground (arith, ==_iff (head_of s b) expected)

-- The world after an update that succeeds.
abbrev pub updated : Str → Option Str → Option Str → String → World → World
updated b c expected operation w = record {
  store = write_branch_ref w.store b c;
  client = append_reflog b expected c operation (write_branch_snapshot b (truthy c) w.client);
}

pub update_branch_ref_hit :
    (b : Str) (c expected : Option Str) (operation : String) (w : World)
    → head_of w.store b ≡ expected
    → update_branch_ref b c expected operation w ≡ (ok tt, updated b c expected operation w)
unfolding update_branch_ref
update_branch_ref_hit b c expected operation w h =
    rw (compare_and_set_hit w.store b c expected h, read_branch_ref-write_branch_ref w.store b c)

-- The world after an update that fails: the snapshot is refreshed if the branch has a ref.
abbrev pub refreshed : Str → World → World
refreshed b w = (refresh b (read_branch_ref w.store b) w).1

refreshed-store :
    (b : Str) (w : World)
    → ((refreshed b w).store ≡ w.store) × ((refreshed b w).client.reflog ≡ w.client.reflog)
unfolding write_branch_snapshot
refreshed-store b w = elim (Option-cases (read_branch_ref w.store b)) [
  | inl e ↦ rw (refreshed, e) (refl, refl)
  | inr (state, e) ↦ rw (refreshed, e) (refl, refl)
]

pub update_branch_ref_miss :
    (b : Str) (c expected : Option Str) (operation : String) (w : World)
    → head_of w.store b ≢ expected
    → update_branch_ref b c expected operation w
      ≡ (raise (ref_conflict b operation expected (head_of w.store b)), refreshed b w)
unfolding update_branch_ref
update_branch_ref_miss b c expected operation w h =
    rw (compare_and_set_miss w.store b c expected h)
      (elim (Option-cases (read_branch_ref w.store b)) [
        | inl e ↦ simp (refreshed, e)
        | inr (state, e) ↦ simp (refreshed, e)
      ])

abbrev pub reflog_line : Str → Option Str → Option Str → String → ReflogLine
reflog_line b old new operation = record {
  branch = b;
  old_commit = truthy old;
  new_commit = truthy new;
  operation = operation;
}

updated-snapshot :
    (b : Str) (c expected : Option Str) (operation : String) (w : World)
    → commit_id_of (read_branch_snapshot (updated b c expected operation w).client b) ≡ truthy c
unfolding append_reflog write_branch_snapshot read_branch_snapshot commit_id_of
updated-snapshot b c expected operation w =
    simp (read_branch_snapshot, commit_id_of, get-put_self w.client.snapshots b (truthy c))

updated-commits :
    (b : Str) (c expected : Option Str) (operation : String) (w : World)
    → (updated b c expected operation w).store.commits ≡ w.store.commits
unfolding write_branch_ref
updated-commits b c expected operation w = refl

updated-reflog :
    (b : Str) (c expected : Option Str) (operation : String) (w : World)
    → (updated b c expected operation w).client.reflog
      ≡ w.client.reflog ++ reflog_line b expected c operation ∷ []
unfolding append_reflog write_branch_snapshot
updated-reflog b c expected operation w = refl

-- If the branch points to the expected commit, the update returns, and afterwards the branch
-- points to the new commit, other branches are what they were, the client's snapshot is the new
-- commit, no commit object has changed, and the reflog has one more line.
pub update_branch_ref-ok :
    (b : Str) (c expected : Option Str) (operation : String) (w : World)
    → head_of w.store b ≡ expected
    → let (r, w') = update_branch_ref b c expected operation w in
      (r ≡ ok tt)
      × ((j : Str) → head_of w'.store j ≡ (if j == b then truthy c else head_of w.store j))
      × (commit_id_of (read_branch_snapshot w'.client b) ≡ truthy c)
      × (w'.store.commits ≡ w.store.commits)
      × (w'.client.reflog ≡ w.client.reflog ++ reflog_line b expected c operation ∷ [])
update_branch_ref-ok b c expected operation w h =
    rw (update_branch_ref_hit b c expected operation w h) (
      refl,
      λ j. head_of-write_branch_ref w.store b j c,
      updated-snapshot b c expected operation w,
      updated-commits b c expected operation w,
      updated-reflog b c expected operation w,
    )

-- Every update either found the branch at the expected commit and has done all of its work, or
-- found it elsewhere, raises the conflict and leaves the shared store and the reflog alone.
pub update_branch_ref_lem :
    (b : Str) (c expected : Option Str) (operation : String) (w : World)
    → let (r, w') = update_branch_ref b c expected operation w in
      ((head_of w.store b ≡ expected)
        × (r ≡ ok tt)
        × ((j : Str) → head_of w'.store j ≡ (if j == b then truthy c else head_of w.store j))
        × (commit_id_of (read_branch_snapshot w'.client b) ≡ truthy c)
        × (w'.store.commits ≡ w.store.commits)
        × (w'.client.reflog ≡ w.client.reflog ++ reflog_line b expected c operation ∷ []))
      ⊎ ((head_of w.store b ≢ expected)
          × (r ≡ raise (ref_conflict b operation expected (head_of w.store b)))
          × (w'.store ≡ w.store)
          × (w'.client.reflog ≡ w.client.reflog))
update_branch_ref_lem b c expected operation w = elim (option_eq.dec (head_of w.store b) expected) [
  | yes same ↦
      let r = update_branch_ref-ok b c expected operation w same in
      inl (same, r.0, r.1, r.2, r.3, r.4)
  | no other ↦ inr (
      rw (update_branch_ref_miss b c expected operation w other)
        (other, refl, (refreshed-store b w).0, (refreshed-store b w).1))
]
